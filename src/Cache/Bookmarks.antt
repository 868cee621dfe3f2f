-- ===== src/Cache/Bookmarks.antt =====
-- Bookmarks: tui/internal/cache/bookmarks.go.
use stellarview_tui.Prelude.{ℕ, String, Bool, Option, List, [], ◌∷◌, ltb, str_eq, if◌then◌else◌}
use stellarview_tui.Prelude.Text.{is_empty, str_lt}
use stellarview_tui.Prelude.Sort.{sort_stable}
use stellarview_tui.Cache.Rows.{Bookmark}
use stellarview_tui.Cache.Table.{delete, has_key, upsert}
use stellarview_tui.Cache.Store.{given, Method, refuse_if, query, execute, time_or}

abbrev pub bookmark_key : Bookmark → List String
bookmark_key bookmark = bookmark.id ∷ []

-- DO UPDATE SET
abbrev pub updated_bookmark : Bookmark → Bookmark → Bookmark
updated_bookmark old new = record old {
  profile_id = new.profile_id;
  kind = new.kind;
  target = new.target;
  title = new.title;
  notes = new.notes;
  updated_at = new.updated_at;
}

-- `UpsertBookmark`
unfoldable pub upsert_bookmark : Option String → ℕ → Bookmark → Method (Unit {0})
upsert_bookmark problem now bookmark =
    refuse_if (is_empty bookmark.id) "cache: bookmark ID is required" (
      refuse_if (is_empty bookmark.profile_id) "cache: bookmark profile ID is required" (
        refuse_if (is_empty bookmark.kind) "cache: bookmark kind is required" (
          refuse_if (is_empty bookmark.target) "cache: bookmark target is required" (
            refuse_if (is_empty bookmark.title) "cache: bookmark title is required" (
              execute problem "cache: upsert bookmark %q: %w" (bookmark.id ∷ []) (λ tables.
                record tables {
                  bookmarks =
                      upsert bookmark_key updated_bookmark
                        (record bookmark {
                          created_at = time_or now bookmark.created_at;
                          updated_at = now;
                        })
                        tables.bookmarks;
                }))))))

-- `DeleteBookmark`
unfoldable pub delete_bookmark : Option String → String → Method (Unit {0})
delete_bookmark problem id = refuse_if (is_empty id) "cache: bookmark ID is required" (
    execute problem "cache: delete bookmark %q: %w" (id ∷ []) (λ tables. record tables {
      bookmarks = delete (has_key bookmark_key (id ∷ [])) tables.bookmarks;
    }))

-- ORDER BY title ASC, created_at ASC
abbrev pub bookmark_before : Bookmark → Bookmark → Bool
bookmark_before a b =
    if str_eq a.title b.title then ltb a.created_at b.created_at else str_lt a.title b.title

-- `ListBookmarks`
unfoldable pub list_bookmarks : Option String → Method (List Bookmark)
list_bookmarks problem =
    query problem "cache: list bookmarks: %w" []
      (λ tables. given (sort_stable bookmark_before tables.bookmarks))
