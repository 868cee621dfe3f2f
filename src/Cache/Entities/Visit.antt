-- ===== src/Cache/Entities/Visit.antt =====
-- What `UpsertEntityCache` leaves in the cache: tui/internal/cache/entities.go.
use stellarview_tui.Prelude.{
  ℕ, suc, ◌+◌, ◌≤◌, ◌<◌, ◌≡◌, refl, ◌∙◌, String, true, false, Option, none, some, inl, inr, List,
  [], ◌∷◌, length, Bool-cases, ◌↔◌, arith,
}
use stellarview_tui.Prelude.Int.{pos}
use stellarview_tui.Prelude.Text.{is_empty}
use stellarview_tui.Cache.Rows.{EntityCache}
use stellarview_tui.Cache.Table.{keys_eq, select, get, upsert}
use stellarview_tui.Cache.Table.Laws.{keys_eq_iff, HasDistinctKeys, get-upsert, get-key, merged}
use stellarview_tui.Cache.Store.{Tables, Answer, given, broken, refuse_if, execute, query}
use stellarview_tui.Cache.Store.Inversion.{refuse_if-eq-given}
use stellarview_tui.Cache.Policy.{entity_fresh, IsWithin, entity_fresh_iff}
use stellarview_tui.Cache.Entities.{
  default_entity_cache_limit, entity_key, of_profile, pruned, updated_entity, stamped, prune_rows,
  store_entity, after_prune, visit, upsert_entity_cache, found_entity, get_entity_cache,
}
use stellarview_tui.Cache.Entities.Limit.{pruned-length}

-- The tables after a visit that worked.
abbrev visited : ℕ → EntityCache → Tables → Tables
visited now entity tables = record tables {
  entity_cache =
      upsert entity_key updated_entity (stamped now entity)
        (pruned entity.profile_id default_entity_cache_limit tables.entity_cache);
}

stores_after_prune :
    (prune_problem problem : Option String) (now : ℕ) (entity : EntityCache) (tables : Tables)
    → is_empty entity.profile_id ≡ false
    → (after_prune
        (store_entity problem (stamped now entity))
        (prune_rows prune_problem entity.profile_id (pos default_entity_cache_limit) tables)).0
      ≡ given tt
    → after_prune
        (store_entity problem (stamped now entity))
        (prune_rows prune_problem entity.profile_id (pos default_entity_cache_limit) tables)
      ≡ (given tt, visited now entity tables)
unfolding prune_rows store_entity after_prune refuse_if execute
stores_after_prune none none now entity tables named h = rw named refl
stores_after_prune none (some e) now entity tables named h =
    let k : Path (Answer (Unit {0}))
        (broken "cache: upsert entity %s:%s: %w" (entity.kind ∷ entity.target ∷ []) e) (given tt) =
      rw named at h in
    cc
stores_after_prune (some e) problem now entity tables named h =
    let k : Path (Answer (Unit {0})) (broken "cache: prune entity cache: %w" [] e) (given tt) =
      rw named at h in
    cc

visit-eq-given :
    (prune_problem problem : Option String) (now : ℕ) (entity : EntityCache) (tables : Tables)
    → (visit prune_problem problem now entity tables).0 ≡ given tt
    → (visit prune_problem problem now entity tables ≡ (given tt, visited now entity tables))
      × (is_empty entity.profile_id ≡ false)
      × (is_empty entity.kind ≡ false)
      × (is_empty entity.target ≡ false)
unfolding visit
visit-eq-given prune_problem problem now entity tables h =
    let (a, e1, h1) = refuse_if-eq-given (is_empty entity.profile_id) _ _ tables tt h in
    let (b, e2, h2) = refuse_if-eq-given (is_empty entity.kind) _ _ tables tt h1 in
    let (c, e3, h3) = refuse_if-eq-given (is_empty entity.target) _ _ tables tt h2 in
    let (d, e4, h4) = refuse_if-eq-given (is_empty entity.payload) _ _ tables tt h3 in
    (e1 ∙ e2 ∙ e3 ∙ e4 ∙ stores_after_prune prune_problem problem now entity tables a h4, a, b, c)

-- A row that replaces another or is new adds at most one to its profile.
length-select-upsert :
    (profile_id : String) (new : EntityCache) (rows : List EntityCache)
    → length (select (of_profile profile_id) (upsert entity_key updated_entity new rows))
      ≤ suc (length (select (of_profile profile_id) rows))
unfolding select upsert
length-select-upsert profile_id new [] = ground arith
length-select-upsert profile_id new (old ∷ rows) =
    elim (Bool-cases (keys_eq (entity_key old) (entity_key new))) [
      | inl here ↦ rw here (ground arith)
      | inr later ↦ rw later (ground (arith, length-select-upsert profile_id new rows))
    ]

-- After `UpsertEntityCache` has stored an entity, the cache holds at most 501 entities of its
-- profile, however many it held before (with the primary key of the table in order).
pub visit-bound :
    (prune_problem problem : Option String) (now : ℕ) (entity : EntityCache) (tables : Tables)
    → HasDistinctKeys entity_key tables.entity_cache
    → (visit prune_problem problem now entity tables).0 ≡ given tt
    → length (
        select
          (of_profile entity.profile_id)
          (visit prune_problem problem now entity tables).1.entity_cache)
      ≤ default_entity_cache_limit + 1
visit-bound prune_problem problem now entity tables keys h =
    let (e, a, b, c) = visit-eq-given prune_problem problem now entity tables h in
    let rows = pruned entity.profile_id default_entity_cache_limit tables.entity_cache in
    rw e (
      omega (
        arith,
        length-select-upsert entity.profile_id (stamped now entity) rows,
        pruned-length entity.profile_id default_entity_cache_limit tables.entity_cache keys,
      ))

abbrev own_key : EntityCache → List String
own_key entity = entity.profile_id ∷ entity.kind ∷ entity.target ∷ []

-- The entity that is found after a visit: with the contents that were visited, updated at the
-- time of the visit.
pub record Shows (entity : EntityCache) (now : ℕ) (row : EntityCache) : Type 0 where
  pub same_key : entity_key row ≡ entity_key entity
  pub same_title : row.title ≡ entity.title
  pub same_summary : row.summary ≡ entity.summary
  pub same_payload : row.payload ≡ entity.payload
  pub same_source : row.source_label ≡ entity.source_label
  pub at_visit : row.updated_at ≡ now

merged-Shows :
    (now : ℕ) (entity : EntityCache) (old : Option EntityCache)
    → ((row : EntityCache) → old ≡ some row → entity_key row ≡ entity_key entity)
    → Shows entity now (merged entity_key updated_entity (stamped now entity) old)
merged-Shows now entity none h = record {
  same_key = refl;
  same_title = refl;
  same_summary = refl;
  same_payload = refl;
  same_source = refl;
  at_visit = refl;
}
merged-Shows now entity (some row) h = record {
  same_key = h row refl;
  same_title = refl;
  same_summary = refl;
  same_payload = refl;
  same_source = refl;
  at_visit = refl;
}

Shows-fresh :
    (entity : EntityCache) (now later : ℕ) (row : EntityCache)
    → Shows entity now row
    → 0 < now
    → (entity_fresh row later ≡ true) ↔ IsWithin entity.kind now later
Shows-fresh entity now later row shows positive =
    let same : row.kind ≡ entity.kind = let e = shows.same_key in cc in
    let at = shows.at_visit in rw (← same, ← at) (entity_fresh_iff row later (omega arith))

-- What `UpsertEntityCache` has stored, `GetEntityCache` finds with the same contents: fresh at a
-- later time exactly if the lifetime of its kind is zero, so that it never expires, or is not over,
-- counted from the visit. (The zero time is not a time of a visit, and the query does not fail.)
pub get_entity_cache-visit :
    (prune_problem problem : Option String) (now later : ℕ) (entity : EntityCache) (tables : Tables)
    → (visit prune_problem problem now entity tables).0 ≡ given tt
    → 0 < now
    → let after = upsert_entity_cache prune_problem problem now entity (some tables) in
      (row : EntityCache) × ((get_entity_cache none entity.profile_id entity.kind entity.target
          after.1).0
        ≡ given row)
      × Shows entity now row
      × ((entity_fresh row later ≡ true) ↔ IsWithin entity.kind now later)
unfolding upsert_entity_cache get_entity_cache found_entity refuse_if query
get_entity_cache-visit prune_problem problem now later entity tables h positive =
    let (e, a, b, c) = visit-eq-given prune_problem problem now entity tables h in
    let rows = pruned entity.profile_id default_entity_cache_limit tables.entity_cache in
    let k = entity_key entity in
    let old = get entity_key k rows in
    let row = merged entity_key updated_entity (stamped now entity) old in
    let here = (keys_eq_iff k k).1 refl in
    let found = get-upsert entity_key updated_entity (λ o n. refl) k (stamped now entity) rows in
    let shows = merged-Shows now entity old (λ r g. get-key entity_key k rows r g) in
    (row, rw (e, a, b, c, found, here) refl, shows, Shows-fresh entity now later row shows positive)
