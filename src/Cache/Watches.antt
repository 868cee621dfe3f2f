-- ===== src/Cache/Watches.antt =====
-- Watch presets: tui/internal/cache/watch_settings.go. A Boolean column holds 0 or 1.
pub mod Presets
use stellarview_tui.Prelude.{
  ℕ, String, Bool, true, false, not, ◌&&◌, ◌||◌, Option, none, some, List, [], ◌∷◌, ltb, ◌==◌,
  str_eq, take, if◌then◌else◌,
}
use stellarview_tui.Prelude.Int.{ℤ, pos, leb_ℤ, ltb_ℤ, eq_ℤ, pos_part}
use stellarview_tui.Prelude.Text.{is_empty, str_lt}
use stellarview_tui.Prelude.Sort.{sort_stable}
use stellarview_tui.Cache.Rows.{WatchSetting}
use stellarview_tui.Cache.Table.{select, delete, first, has_key, get, upsert}
use stellarview_tui.Cache.Store.{
  Tables, Answer, given, refused, broken, no_rows, Method, on_store, refuse_if, query, execute,
  time_or,
}

abbrev pub setting_key : WatchSetting → List String
setting_key setting = setting.profile_id ∷ setting.name ∷ []

-- DO UPDATE SET
abbrev pub updated_setting : WatchSetting → WatchSetting → WatchSetting
updated_setting old new = record old {
  filters_json = new.filters_json;
  paused = new.paused;
  auto_apply = new.auto_apply;
  updated_at = new.updated_at;
}

-- `UpsertWatchSetting`
unfoldable pub upsert_watch_setting : Option String → ℕ → WatchSetting → Method (Unit {0})
upsert_watch_setting problem now setting =
    refuse_if (is_empty setting.profile_id) "cache: watch setting profile ID is required" (
      refuse_if (is_empty setting.name) "cache: watch setting name is required" (
        execute problem "cache: upsert watch setting %q: %w" (setting.name ∷ []) (λ tables.
          record tables {
            watch_settings =
                upsert setting_key updated_setting
                  (record setting {
                    created_at = time_or now setting.created_at;
                    updated_at = now;
                    filters_json =
                        if is_empty setting.filters_json then "{}" else setting.filters_json;
                  })
                  tables.watch_settings;
          })))

-- `DeleteWatchSetting`
unfoldable pub delete_watch_setting : Option String → String → String → Method (Unit {0})
delete_watch_setting problem profile_id name =
    refuse_if (is_empty profile_id || is_empty name)
      "cache: watch setting profile ID and name are required"
      (execute problem "cache: delete watch setting %q: %w" (name ∷ []) (λ tables. record tables {
        watch_settings =
            delete (has_key setting_key (profile_id ∷ name ∷ [])) tables.watch_settings;
      }))

-- ORDER BY updated_at DESC
abbrev pub setting_before : WatchSetting → WatchSetting → Bool
setting_before a b = ltb b.updated_at a.updated_at

abbrev pub setting_of : String → WatchSetting → Bool
setting_of profile_id setting = str_eq setting.profile_id profile_id

-- `ListWatchSettings`
unfoldable pub list_watch_settings : Option String → String → Method (List WatchSetting)
list_watch_settings problem profile_id =
    query problem "cache: list watch settings: %w" [] (λ tables.
      given (sort_stable setting_before (select (setting_of profile_id) tables.watch_settings)))

-- WHERE profile_id = ? AND auto_apply = 1
abbrev pub applies : String → WatchSetting → Bool
applies profile_id setting = setting_of profile_id setting && setting.auto_apply

unfoldable pub found_setting : Option WatchSetting → Answer WatchSetting
found_setting none = no_rows "cache: no rows returned for auto-apply watch setting" []
found_setting (some setting) = given setting

-- `FindAutoApplyWatchSetting`
unfoldable pub find_auto_apply_watch_setting : Option String → String → Method WatchSetting
find_auto_apply_watch_setting problem profile_id =
    query problem "cache: find auto-apply watch setting: %w" [] (λ tables.
      found_setting
        (first (sort_stable setting_before (select (applies profile_id) tables.watch_settings))))
