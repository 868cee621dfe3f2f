-- ===== src/Cache/Watches/Presets.antt =====
-- What the methods of tui/internal/cache/watch_settings.go promise: a map from a profile and a
-- name to a preset.
use stellarview_tui.Prelude.{
  ℕ, ◌≤◌, ◌≡◌, refl, subst, String, Bool, true, false, ◌&&◌, ◌||◌, Option, none, some, inl, inr,
  List, [], ◌∷◌, All, All-map, str_eq, if◌then◌else◌, Bool-cases, Option-cases, arith,
}
use stellarview_tui.Prelude.Text.{is_empty}
use stellarview_tui.Prelude.Sort.{
  sort_stable, All-sort_stable, All-of_sort_stable, IsSorted, sort_stable-IsSorted,
}
use stellarview_tui.Cache.Rows.{WatchSetting}
use stellarview_tui.Cache.Table.{keys_eq, select, first, get}
use stellarview_tui.Cache.Table.Laws.{get-upsert, get-delete}
use stellarview_tui.Cache.Store.{Tables, given, Method, time_or}
use stellarview_tui.Cache.Store.Inversion.{refuse_if-eq-given, execute-eq-given, query-eq-given}
use stellarview_tui.Cache.Watches.{
  setting_key, updated_setting, upsert_watch_setting, delete_watch_setting, setting_before, applies,
  found_setting, find_auto_apply_watch_setting,
}

-- The presets by profile and name.
abbrev pub Presets : Type 0
Presets = String → String → Option WatchSetting

abbrev pub presets_of : Tables → Presets
presets_of tables profile_id name = get setting_key (profile_id ∷ name ∷ []) tables.watch_settings

pub data Change : Type 0 where
  save : ℕ → WatchSetting → Change
  remove : String → String → Change

-- What a change promises: a preset that is saved keeps the identity and the creation time of the
-- one that it replaces.
abbrev pub changed : Change → Presets → Presets
changed (save now setting) presets profile_id name =
    if str_eq setting.profile_id profile_id && str_eq setting.name name
    then some (elim (presets profile_id name) [
      | none ↦ record setting {
        filters_json = if is_empty setting.filters_json then "{}" else setting.filters_json;
        created_at = time_or now setting.created_at;
        updated_at = now;
      }
      | some old ↦ record old {
        filters_json = if is_empty setting.filters_json then "{}" else setting.filters_json;
        paused = setting.paused;
        auto_apply = setting.auto_apply;
        updated_at = now;
      }
    ])
    else presets profile_id name
changed (remove gone_profile gone_name) presets profile_id name =
    if str_eq gone_profile profile_id && str_eq gone_name name
    then none
    else presets profile_id name

abbrev pub run : Option String → Change → Method (Unit {0})
run problem (save now setting) = upsert_watch_setting problem now setting
run problem (remove profile_id name) = delete_watch_setting problem profile_id name

two_keys : (a b c d : String) → keys_eq (a ∷ b ∷ []) (c ∷ d ∷ []) ≡ (str_eq a c && str_eq b d)
unfolding keys_eq
two_keys a b c d = ground arith

-- A change of the watch presets that works does to the presets what it promises, seen by profile
-- and name.
pub presets_of-changed :
    (problem : Option String) (change : Change) (tables : Tables) (profile_id name : String)
    → (run problem change tables).0 ≡ given tt
    → presets_of (run problem change tables).1 profile_id name
      ≡ changed change (presets_of tables) profile_id name
unfolding upsert_watch_setting delete_watch_setting
presets_of-changed problem (save now setting) tables profile_id name h =
    let (a, e1, h1) = refuse_if-eq-given (is_empty setting.profile_id) _ _ tables tt h in
    let (b, e2, h2) = refuse_if-eq-given (is_empty setting.name) _ _ tables tt h1 in
    let e3 = execute-eq-given problem _ _ _ tables h2 in
    let law =
      get-upsert setting_key updated_setting (λ o n. refl) (profile_id ∷ name ∷ [])
        (record setting {
          created_at = time_or now setting.created_at;
          updated_at = now;
          filters_json = if is_empty setting.filters_json then "{}" else setting.filters_json;
        })
        tables.watch_settings in
    rw (e1, e2, e3, law, two_keys setting.profile_id setting.name profile_id name)
      (elim (Option-cases (get setting_key (profile_id ∷ name ∷ []) tables.watch_settings)) [
        | inl fresh ↦ rw fresh refl
        | inr (old, found) ↦ rw found refl
      ])
presets_of-changed problem (remove gone_profile gone_name) tables profile_id name h =
    let (a, e1, h1) =
      refuse_if-eq-given (is_empty gone_profile || is_empty gone_name) _ _ tables tt h in
    let e2 = execute-eq-given problem _ _ _ tables h1 in
    rw
      (
        e1,
        e2,
        get-delete setting_key (profile_id ∷ name ∷ []) (gone_profile ∷ gone_name ∷ [])
            tables.watch_settings,
        two_keys gone_profile gone_name profile_id name,
      )
      refl

-- What holds of every row that a SELECT gives holds of every row that passes its test.
All-of_select :
    {A : Type 0} (P : A → Type 0) (test : A → Bool) (rows : List A)
    → All P (select test rows)
    → All (λ row. test row ≡ true → P row) rows
unfolding select
All-of_select P test [] h = tt
All-of_select P test (row ∷ rows) h = elim (Bool-cases (test row)) [
  | inl found ↦
      let k : P row × All P (select test rows) = rw found at h in
      ((λ _. k.0), All-of_select P test rows k.1)
  | inr other ↦ ((λ e. let absurd_test = other in cc), All-of_select P test rows (rw other at h))
]

select-passes :
    {A : Type 0} (test : A → Bool) (rows : List A) → All (λ row. test row ≡ true) (select test rows)
unfolding select
select-passes test [] = tt
select-passes test (row ∷ rows) = elim (Bool-cases (test row)) [
  | inl found ↦ rw found (found, select-passes test rows)
  | inr other ↦ rw other (select-passes test rows)
]

latest_first :
    (P : WatchSetting → Type 0) (rows : List WatchSetting) (setting : WatchSetting)
    → IsSorted setting_before rows
    → All P rows
    → found_setting (first rows) ≡ given setting
    → P setting × All (λ row. row.updated_at ≤ setting.updated_at) rows
unfolding found_setting first
latest_first P [] setting s p h = cc
latest_first P (row ∷ rows) setting s p h =
    let same : row ≡ setting = cc in
    let own : row.updated_at ≤ row.updated_at = omega arith in
    let others =
      All-map (λ r. setting_before r row ≡ false) (λ r. r.updated_at ≤ row.updated_at) rows
        (λ r k. ground arith) s.0 in
    subst (λ t. P t × All (λ r. r.updated_at ≤ t.updated_at) (row ∷ rows)) same (p.0, (own, others))

-- The preset that `FindAutoApplyWatchSetting` gives belongs to the profile and applies by itself,
-- and none of the others that do was updated after it.
pub find_auto_apply_watch_setting-latest :
    (problem : Option String) (profile_id : String) (tables : Tables) (setting : WatchSetting)
    → (find_auto_apply_watch_setting problem profile_id tables).0 ≡ given setting
    → (applies profile_id setting ≡ true)
      × All
          (λ row. applies profile_id row ≡ true → row.updated_at ≤ setting.updated_at)
          tables.watch_settings
unfolding find_auto_apply_watch_setting
find_auto_apply_watch_setting-latest problem profile_id tables setting h =
    let chosen = select (applies profile_id) tables.watch_settings in
    let sorted = sort_stable setting_before chosen in
    let (passes, latest) =
      latest_first (λ row. applies profile_id row ≡ true) sorted setting
        (sort_stable-IsSorted setting_before (λ x y k. ground arith) (λ x y z k l. ground arith)
          chosen)
        (All-sort_stable setting_before _ chosen
          (select-passes (applies profile_id) tables.watch_settings))
        (query-eq-given problem _ _ _ tables setting h) in
    (
      passes,
      All-of_select _ (applies profile_id) tables.watch_settings
          (All-of_sort_stable setting_before _ chosen latest),
    )
