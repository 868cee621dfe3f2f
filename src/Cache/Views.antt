-- ===== src/Cache/Views.antt =====
-- Saved views: tui/internal/cache/saved_views.go.
use stellarview_tui.Prelude.{
  ℕ, String, Bool, ◌||◌, Option, List, [], ◌∷◌, ltb, str_eq, if◌then◌else◌,
}
use stellarview_tui.Prelude.Text.{is_empty}
use stellarview_tui.Prelude.Sort.{sort_stable}
use stellarview_tui.Cache.Rows.{SavedView}
use stellarview_tui.Cache.Table.{select, delete, has_key, upsert}
use stellarview_tui.Cache.Store.{given, Method, refuse_if, query, execute, time_or}

abbrev pub view_key : SavedView → List String
view_key view = view.profile_id ∷ view.name ∷ []

-- DO UPDATE SET
abbrev pub updated_view : SavedView → SavedView → SavedView
updated_view old new = record old {
  command = new.command;
  screen = new.screen;
  entity_kind = new.entity_kind;
  entity_target = new.entity_target;
  filters_json = new.filters_json;
  updated_at = new.updated_at;
}

-- `UpsertSavedView`
unfoldable pub upsert_saved_view : Option String → ℕ → SavedView → Method (Unit {0})
upsert_saved_view problem now view =
    refuse_if (is_empty view.profile_id) "cache: saved view profile ID is required" (
      refuse_if (is_empty view.name) "cache: saved view name is required" (
        refuse_if (is_empty view.command) "cache: saved view command is required" (
          execute problem "cache: upsert saved view %q: %w" (view.name ∷ []) (λ tables.
            record tables {
              saved_views =
                  upsert view_key updated_view
                    (record view {
                      created_at = time_or now view.created_at;
                      updated_at = now;
                      filters_json = if is_empty view.filters_json then "{}" else view.filters_json;
                    })
                    tables.saved_views;
            }))))

-- `DeleteSavedView`
unfoldable pub delete_saved_view : Option String → String → String → Method (Unit {0})
delete_saved_view problem profile_id name =
    refuse_if (is_empty profile_id || is_empty name)
      "cache: saved view profile ID and name are required"
      (execute problem "cache: delete saved view %q: %w" (name ∷ []) (λ tables. record tables {
        saved_views = delete (has_key view_key (profile_id ∷ name ∷ [])) tables.saved_views;
      }))

-- ORDER BY updated_at DESC
abbrev pub view_before : SavedView → SavedView → Bool
view_before a b = ltb b.updated_at a.updated_at

abbrev pub view_of : String → SavedView → Bool
view_of profile_id view = str_eq view.profile_id profile_id

-- `ListSavedViews`
unfoldable pub list_saved_views : Option String → String → Method (List SavedView)
list_saved_views problem profile_id =
    query problem "cache: list saved views: %w" []
      (λ tables. given (sort_stable view_before (select (view_of profile_id) tables.saved_views)))
