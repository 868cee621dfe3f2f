-- ===== src/Cache/Entities.antt =====
-- The cache of visited entities: tui/internal/cache/entities.go. Rows that SQL leaves in no order,
-- being updated at the same time, are taken in the order of the table.
pub mod Limit
pub mod Visit
use stellarview_tui.Prelude.{
  ℕ, String, Bool, true, false, not, ◌&&◌, Option, none, some, List, [], ◌∷◌, ltb, leb, str_eq,
  take, if◌then◌else◌,
}
use stellarview_tui.Prelude.Int.{ℤ, pos, leb_ℤ, pos_part}
use stellarview_tui.Prelude.Text.{is_empty}
use stellarview_tui.Prelude.Sort.{sort_stable}
use stellarview_tui.Cache.Rows.{EntityCache}
use stellarview_tui.Cache.Table.{keys_eq, select, delete, get, upsert}
use stellarview_tui.Cache.Store.{
  Tables, Answer, given, refused, broken, no_rows, Method, on_store, refuse_if, query, execute,
  time_or,
}

abbrev pub default_entity_cache_limit : ℕ
default_entity_cache_limit = 500

abbrev pub entity_key : EntityCache → List String
entity_key entity = entity.profile_id ∷ entity.kind ∷ entity.target ∷ []

-- ORDER BY updated_at DESC
abbrev pub later : EntityCache → EntityCache → Bool
later a b = ltb b.updated_at a.updated_at

abbrev pub of_profile : String → EntityCache → Bool
of_profile profile_id entity = str_eq entity.profile_id profile_id

-- The rows of a profile, latest first.
unfoldable pub latest_of : String → List EntityCache → List EntityCache
latest_of profile_id rows = sort_stable later (select (of_profile profile_id) rows)

-- Whether a row is among others; `entity_key` is the primary key.
unfoldable pub is_among : EntityCache → List EntityCache → Bool
is_among entity [] = false
is_among entity (row ∷ rows) =
    if keys_eq (entity_key row) (entity_key entity) then true else is_among entity rows

-- DELETE … rowid NOT IN (SELECT … LIMIT n)
unfoldable pub pruned : String → ℕ → List EntityCache → List EntityCache
pruned profile_id n rows =
    let kept = take n (latest_of profile_id rows) in
    delete (λ row. of_profile profile_id row && not (is_among row kept)) rows

-- DO UPDATE SET
abbrev pub updated_entity : EntityCache → EntityCache → EntityCache
updated_entity old new = record old {
  title = new.title;
  summary = new.summary;
  payload = new.payload;
  source_label = new.source_label;
  updated_at = new.updated_at;
}

-- `PruneEntityCache`
unfoldable pub prune_rows : Option String → String → ℤ → Method (Unit {0})
prune_rows problem profile_id max_entries =
    refuse_if (is_empty profile_id) "cache: entity profile ID is required" (
      if leb_ℤ max_entries (pos 0)
      then (λ tables. (given tt, tables))
      else execute problem "cache: prune entity cache: %w" [] (λ tables. record tables {
        entity_cache = pruned profile_id (pos_part max_entries) tables.entity_cache;
      }))

unfoldable pub prune_entity_cache :
    Option String → String → ℤ → Option Tables → Answer (Unit {0}) × Option Tables
prune_entity_cache problem profile_id max_entries =
    on_store (prune_rows problem profile_id max_entries)

-- The INSERT of `UpsertEntityCache`.
unfoldable pub store_entity : Option String → EntityCache → Method (Unit {0})
store_entity problem entity =
    execute problem "cache: upsert entity %s:%s: %w" (entity.kind ∷ entity.target ∷ []) (λ tables.
      record tables { entity_cache = upsert entity_key updated_entity entity tables.entity_cache })

-- What follows the call of `PruneEntityCache`.
unfoldable pub after_prune :
    Method (Unit {0}) → Answer (Unit {0}) × Tables → Answer (Unit {0}) × Tables
after_prune next (given u, tables) = next tables
after_prune next (refused reason, tables) = (refused reason, tables)
after_prune next (broken format args e, tables) = (broken format args e, tables)
after_prune next (no_rows format args, tables) = (no_rows format args, tables)

abbrev pub stamped : ℕ → EntityCache → EntityCache
stamped now entity = record entity { created_at = time_or now entity.created_at; updated_at = now }

-- `UpsertEntityCache`, with what its two statements report.
unfoldable pub visit : Option String → Option String → ℕ → EntityCache → Method (Unit {0})
visit prune_problem problem now entity =
    refuse_if (is_empty entity.profile_id) "cache: entity profile ID is required" (
      refuse_if (is_empty entity.kind) "cache: entity kind is required" (
        refuse_if (is_empty entity.target) "cache: entity target is required" (
          refuse_if (is_empty entity.payload) "cache: entity payload is required" (λ tables.
            after_prune (store_entity problem (stamped now entity)) (
              prune_rows prune_problem entity.profile_id (pos default_entity_cache_limit)
                tables)))))

unfoldable pub upsert_entity_cache :
    Option String
    → Option String
    → ℕ
    → EntityCache
    → Option Tables
    → Answer (Unit {0}) × Option Tables
upsert_entity_cache prune_problem problem now entity =
    on_store (visit prune_problem problem now entity)

-- `ListEntityCache`
unfoldable pub list_entity_cache :
    Option String → String → ℤ → Option Tables → Answer (List EntityCache) × Option Tables
list_entity_cache problem profile_id limit =
    let n = if leb_ℤ limit (pos 0) then 50 else pos_part limit in
    on_store (
      query problem "cache: list entity cache: %w" []
        (λ tables. given (take n (latest_of profile_id tables.entity_cache))))

unfoldable pub found_entity : Option EntityCache → Answer EntityCache
found_entity none = no_rows "cache: no rows returned" []
found_entity (some entity) = given entity

-- `GetEntityCache`
unfoldable pub get_entity_cache :
    Option String → String → String → String → Option Tables → Answer EntityCache × Option Tables
get_entity_cache problem profile_id kind target = on_store (
    refuse_if
      (if is_empty profile_id then true else if is_empty kind then true else is_empty target)
      "cache: entity profile ID, kind, and target are required"
      (query problem "cache: get entity %s:%s: %w" (kind ∷ target ∷ []) (λ tables.
        found_entity (get entity_key (profile_id ∷ kind ∷ target ∷ []) tables.entity_cache))))
