-- ===== src/Cache/Session/Bound.antt =====
-- The visited entities in a session of the local store: tui/internal/cache/entities.go.
use stellarview_tui.Prelude.{ℕ, ◌+◌, ◌≤◌, ◌≡◌, String, Option, List, length}
use stellarview_tui.Cache.Rows.{EntityCache}
use stellarview_tui.Cache.Table.{select}
use stellarview_tui.Cache.Store.{no_tables, given}
use stellarview_tui.Cache.Entities.{default_entity_cache_limit, of_profile, visit}
use stellarview_tui.Cache.Entities.Visit.{visit-bound}
use stellarview_tui.Cache.Session.{Call, perform_all}
use stellarview_tui.Cache.Session.Kept.{perform_all-IsKeyed}

-- However the local store was used since its tables were empty, with whatever arguments and errors
-- of the database: after a visit that works it holds at most 501 entities of the visited profile.
pub perform_all-visit :
    (calls : List Call) (prune_problem problem : Option String) (now : ℕ) (entity : EntityCache)
    → (visit prune_problem problem now entity (perform_all calls no_tables)).0 ≡ given tt
    → length (
        select
          (of_profile entity.profile_id)
          (visit prune_problem problem now entity (perform_all calls no_tables)).1.entity_cache)
      ≤ default_entity_cache_limit + 1
perform_all-visit calls prune_problem problem now entity h =
    let (_, _, _, _, _, _, _, entities, _, _, _) =
      perform_all-IsKeyed calls no_tables (tt, tt, tt, tt, tt, tt, tt, tt, tt, tt, tt) in
    visit-bound prune_problem problem now entity (perform_all calls no_tables) entities h
