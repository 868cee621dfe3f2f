-- ===== src/Cache/Notes.antt =====
-- Notes: tui/internal/cache/notes.go.
use stellarview_tui.Prelude.{ℕ, String, Bool, Option, List, [], ◌∷◌, ltb, ◌==◌, if◌then◌else◌}
use stellarview_tui.Prelude.Text.{is_empty}
use stellarview_tui.Prelude.Sort.{sort_stable}
use stellarview_tui.Cache.Rows.{Note}
use stellarview_tui.Cache.Table.{delete, has_key, upsert}
use stellarview_tui.Cache.Store.{given, Method, refuse_if, query, execute, time_or}

abbrev pub note_key : Note → List String
note_key note = note.id ∷ []

-- DO UPDATE SET
abbrev pub updated_note : Note → Note → Note
updated_note old new = record old {
  profile_id = new.profile_id;
  target = new.target;
  title = new.title;
  body = new.body;
  updated_at = new.updated_at;
}

-- `UpsertNote`
unfoldable pub upsert_note : Option String → ℕ → Note → Method (Unit {0})
upsert_note problem now note = refuse_if (is_empty note.id) "cache: note ID is required" (
    refuse_if (is_empty note.profile_id) "cache: note profile ID is required" (
      refuse_if (is_empty note.target) "cache: note target is required" (
        refuse_if (is_empty note.title) "cache: note title is required" (
          execute problem "cache: upsert note %q: %w" (note.id ∷ []) (λ tables. record tables {
            notes =
                upsert note_key updated_note
                  (record note { created_at = time_or now note.created_at; updated_at = now })
                  tables.notes;
          })))))

-- `DeleteNote`
unfoldable pub delete_note : Option String → String → Method (Unit {0})
delete_note problem id = refuse_if (is_empty id) "cache: note ID is required" (
    execute problem "cache: delete note %q: %w" (id ∷ [])
      (λ tables. record tables { notes = delete (has_key note_key (id ∷ [])) tables.notes }))

-- ORDER BY updated_at DESC, created_at DESC
abbrev pub note_before : Note → Note → Bool
note_before a b =
    if (a.updated_at == b.updated_at)
    then ltb b.created_at a.created_at
    else ltb b.updated_at a.updated_at

-- `ListNotes`
unfoldable pub list_notes : Option String → Method (List Note)
list_notes problem =
    query problem "cache: list notes: %w" []
      (λ tables. given (sort_stable note_before tables.notes))
