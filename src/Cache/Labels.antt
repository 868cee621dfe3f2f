-- ===== src/Cache/Labels.antt =====
-- Labels and what they are attached to: tui/internal/cache/labels.go.
use stellarview_tui.Prelude.{ℕ, String, Bool, Option, List, [], ◌∷◌, ltb, str_eq, if◌then◌else◌}
use stellarview_tui.Prelude.Text.{is_empty, str_lt}
use stellarview_tui.Prelude.Sort.{sort_stable}
use stellarview_tui.Cache.Rows.{Label, LabelTarget}
use stellarview_tui.Cache.Table.{delete, has_key, upsert}
use stellarview_tui.Cache.Store.{given, Method, refuse_if, query, execute, time_or}

abbrev pub label_key : Label → List String
label_key label = label.id ∷ []

-- DO UPDATE SET
abbrev pub updated_label : Label → Label → Label
updated_label old new = record old {
  profile_id = new.profile_id;
  name = new.name;
  color = new.color;
  updated_at = new.updated_at;
}

-- `UpsertLabel`
unfoldable pub upsert_label : Option String → ℕ → Label → Method (Unit {0})
upsert_label problem now label = refuse_if (is_empty label.id) "cache: label ID is required" (
    refuse_if (is_empty label.profile_id) "cache: label profile ID is required" (
      refuse_if (is_empty label.name) "cache: label name is required" (
        execute problem "cache: upsert label %q: %w" (label.id ∷ []) (λ tables. record tables {
          labels =
              upsert label_key updated_label
                (record label { created_at = time_or now label.created_at; updated_at = now })
                tables.labels;
        }))))

-- `DeleteLabel`
unfoldable pub delete_label : Option String → String → Method (Unit {0})
delete_label problem id = refuse_if (is_empty id) "cache: label ID is required" (
    execute problem "cache: delete label %q: %w" (id ∷ [])
      (λ tables. record tables { labels = delete (has_key label_key (id ∷ [])) tables.labels }))

-- ORDER BY name ASC, created_at ASC
abbrev pub label_before : Label → Label → Bool
label_before a b =
    if str_eq a.name b.name then ltb a.created_at b.created_at else str_lt a.name b.name

-- `ListLabels`
unfoldable pub list_labels : Option String → Method (List Label)
list_labels problem =
    query problem "cache: list labels: %w" []
      (λ tables. given (sort_stable label_before tables.labels))

-- UNIQUE (label_id, profile_id, kind, target)
abbrev pub target_key : LabelTarget → List String
target_key target = target.label_id ∷ target.profile_id ∷ target.kind ∷ target.target ∷ []

-- DO UPDATE SET
abbrev pub updated_target : LabelTarget → LabelTarget → LabelTarget
updated_target old new = record old { id = new.id; updated_at = new.updated_at }

-- `UpsertLabelTarget`
unfoldable pub upsert_label_target : Option String → ℕ → LabelTarget → Method (Unit {0})
upsert_label_target problem now target =
    refuse_if (is_empty target.id) "cache: label target ID is required" (
      refuse_if (is_empty target.label_id) "cache: label target label ID is required" (
        refuse_if (is_empty target.profile_id) "cache: label target profile ID is required" (
          refuse_if (is_empty target.kind) "cache: label target kind is required" (
            refuse_if (is_empty target.target) "cache: label target value is required" (
              execute problem "cache: upsert label target %q: %w" (target.id ∷ []) (λ tables.
                record tables {
                  label_targets =
                      upsert target_key updated_target
                        (record target {
                          created_at = time_or now target.created_at;
                          updated_at = now;
                        })
                        tables.label_targets;
                }))))))

-- `DeleteLabelTarget`
unfoldable pub delete_label_target : Option String → String → Method (Unit {0})
delete_label_target problem id = refuse_if (is_empty id) "cache: label target ID is required" (
    execute problem "cache: delete label target %q: %w" (id ∷ []) (λ tables. record tables {
      label_targets = delete (λ target. str_eq target.id id) tables.label_targets;
    }))

-- ORDER BY label_id ASC, kind ASC, target ASC
abbrev pub target_before : LabelTarget → LabelTarget → Bool
target_before a b =
    if str_eq a.label_id b.label_id
    then if str_eq a.kind b.kind then str_lt a.target b.target else str_lt a.kind b.kind
    else str_lt a.label_id b.label_id

-- `ListLabelTargets`
unfoldable pub list_label_targets : Option String → Method (List LabelTarget)
list_label_targets problem =
    query problem "cache: list label targets: %w" []
      (λ tables. given (sort_stable target_before tables.label_targets))
