-- ===== src/Cache/Lists.antt =====
-- The cache of lists: tui/internal/cache/lists.go.
use stellarview_tui.Prelude.{ℕ, String, ◌||◌, Option, none, some, List, [], ◌∷◌}
use stellarview_tui.Prelude.Text.{is_empty}
use stellarview_tui.Cache.Rows.{ListCache}
use stellarview_tui.Cache.Table.{get, upsert}
use stellarview_tui.Cache.Store.{Answer, given, no_rows, Method, refuse_if, query, execute, time_or}

abbrev pub list_key : ListCache → List String
list_key entry = entry.profile_id ∷ entry.list_kind ∷ entry.query_key ∷ []

-- DO UPDATE SET
abbrev pub updated_list : ListCache → ListCache → ListCache
updated_list old new = record old {
  payload = new.payload;
  source_label = new.source_label;
  updated_at = new.updated_at;
}

-- `UpsertListCache`
unfoldable pub upsert_list_cache : Option String → ℕ → ListCache → Method (Unit {0})
upsert_list_cache problem now entry =
    refuse_if
      (is_empty entry.profile_id
        || is_empty entry.list_kind
        || is_empty entry.query_key
        || is_empty entry.payload)
      "cache: list cache profile, kind, query key, and payload are required"
      (execute problem "cache: upsert list %s:%s: %w" (entry.list_kind ∷ entry.query_key ∷ [])
        (λ tables. record tables {
          list_cache =
              upsert list_key updated_list
                (record entry { created_at = time_or now entry.created_at; updated_at = now })
                tables.list_cache;
        }))

unfoldable pub found_list : Option ListCache → Answer ListCache
found_list none = no_rows "cache: no rows returned" []
found_list (some entry) = given entry

-- `GetListCache`
unfoldable pub get_list_cache : Option String → String → String → String → Method ListCache
get_list_cache problem profile_id list_kind query_key =
    refuse_if (is_empty profile_id || is_empty list_kind || is_empty query_key)
      "cache: list cache profile, kind, and query key are required"
      (query problem "cache: get list %s:%s: %w" (list_kind ∷ query_key ∷ []) (λ tables.
        found_list (get list_key (profile_id ∷ list_kind ∷ query_key ∷ []) tables.list_cache)))
