-- ===== src/Examples/Storage.antt =====
-- The theorems on the local store at concrete rows.
use stellarview_tui.Prelude.{
  ℕ, ◌+◌, ◌≤◌, ◌≡◌, ◌↔◌, inl, inr, refl, true, none, some, List, [], ◌∷◌, All, length, arith,
}
use stellarview_tui.Cache.Rows.{EntityCache, WatchSetting}
use stellarview_tui.Prelude.Text.{to_lower, trim_space}
use stellarview_tui.Prelude.Sort.{sort_stable, insert_by}
use stellarview_tui.Cache.Table.{select, first}
use stellarview_tui.Cache.Store.{Tables, no_tables, given, refuse_if, execute, query}
use stellarview_tui.Cache.Session.{Call, perform_all, entity_visited, watch_saved, watch_deleted}
use stellarview_tui.Cache.Session.Bound.{perform_all-visit}
use stellarview_tui.Cache.Watches.{
  upsert_watch_setting, applies, found_setting, find_auto_apply_watch_setting,
}
use stellarview_tui.Cache.Watches.Presets.{
  presets_of, save, changed, run, presets_of-changed, find_auto_apply_watch_setting-latest,
}
use stellarview_tui.Cache.Policy.{minute, entity_ttl, entity_fresh, IsWithin}
use stellarview_tui.Cache.Entities.{
  default_entity_cache_limit, of_profile, visit, upsert_entity_cache, get_entity_cache, after_prune,
  prune_rows, store_entity,
}
use stellarview_tui.Cache.Entities.Visit.{Shows, visit-bound, get_entity_cache-visit}

abbrev account : EntityCache
account = record {
  profile_id = "main";
  kind = "account";
  target = "GA";
  title = "An account";
  summary = "";
  payload = "{}";
  source_label = "rpc";
  created_at = 0;
  updated_at = 0;
}

abbrev preset : WatchSetting
preset = record {
  id = "w1";
  profile_id = "main";
  name = "payments";
  filters_json = "";
  paused = true;
  auto_apply = true;
  created_at = 0;
  updated_at = 0;
}

presets_of-changed_example :
    presets_of (run none (save 8 preset) no_tables).1 "main" "payments"
    ≡ changed (save 8 preset) (presets_of no_tables) "main" "payments"
unfolding upsert_watch_setting refuse_if execute
presets_of-changed_example =
    presets_of-changed none (save 8 preset) no_tables "main" "payments" refl

abbrev saved : Tables
saved = record no_tables { watch_settings = preset ∷ [] }

find_auto_apply_watch_setting-latest_example :
    (applies "main" preset ≡ true)
    × All
        (λ row. applies "main" row ≡ true → row.updated_at ≤ preset.updated_at)
        saved.watch_settings
unfolding find_auto_apply_watch_setting query found_setting first select sort_stable insert_by
find_auto_apply_watch_setting-latest_example =
    find_auto_apply_watch_setting-latest none "main" saved preset refl

visit-bound_example :
    length (select (of_profile "main") (visit none none 7 account no_tables).1.entity_cache)
    ≤ default_entity_cache_limit + 1
unfolding visit refuse_if after_prune prune_rows execute store_entity
visit-bound_example = visit-bound none none 7 account no_tables tt refl

abbrev calls : List Call
calls =
    entity_visited none none 7 account
    ∷ entity_visited none none 9 account
    ∷ watch_saved none 8 preset
    ∷ watch_saved (some "disk full") 9 preset
    ∷ watch_deleted none "main" "other"
    ∷ []

works_again : (visit none none 10 account (perform_all calls no_tables)).0 ≡ given tt
unfolding visit refuse_if after_prune prune_rows execute store_entity
works_again = refl

perform_all-visit_example :
    length (
      select
        (of_profile "main")
        (visit none none 10 account (perform_all calls no_tables)).1.entity_cache)
    ≤ default_entity_cache_limit + 1
perform_all-visit_example = perform_all-visit calls none none 10 account works_again

get_entity_cache-visit_example :
    (row : EntityCache) × ((get_entity_cache none "main" "account" "GA"
        (upsert_entity_cache none none 7 account (some no_tables)).1).0
      ≡ given row)
    × Shows account 7 row
    × ((entity_fresh row (7 + minute) ≡ true) ↔ IsWithin "account" 7 (7 + minute))
unfolding visit refuse_if after_prune prune_rows execute store_entity
get_entity_cache-visit_example =
    get_entity_cache-visit none none 7 (7 + minute) account no_tables refl (omega arith)

-- A minute after its visit an account is fresh, and a ledger is so at every time.
a_minute_later : IsWithin "account" 7 (7 + minute)
unfolding entity_ttl to_lower trim_space
a_minute_later = inr (omega arith)

forever : (later : ℕ) → IsWithin "ledger" 7 later
unfolding entity_ttl to_lower trim_space
forever later = inl refl
