-- ===== src/App/Palette/Kept.antt =====
-- The selection of the command palette stays on a row.
use stellarview_tui.Prelude.{
  ℕ, zero, suc, ◌-◌, ◌≤◌, ◌<◌, ◌≡◌, refl, String, Bool, ◌||◌, if◌then◌else◌, true, false, some, inl,
  inr, List, [], ◌∷◌, length, ◌==◌, get_elem?, Bool-cases, arith,
}
use stellarview_tui.Prelude.Int.{ℤ, pos, ◌+ℤ◌, leb_ℤ, ltb_ℤ, eq_ℤ}
use stellarview_tui.Prelude.Text.{is_empty, drop_last, ◌+s◌}
use stellarview_tui.App.State.{SearchResult, CommandPaletteSnapshot, Model}
use stellarview_tui.App.Feed.View.{clamped, clamp_index-pos, clamped-le}
use stellarview_tui.App.Palette.{
  clamp_selection, with_selection_moved, with_palette_closed, with_results, close_command_palette,
  when_visible, set_command_palette_search_limit, set_command_palette_results,
  move_command_palette_selection, selected_command_palette_result, infer, open_command_palette,
  with_input, set_command_palette_input, append_command_palette_input, trim_command_palette_input,
  merge_backend, merge_command_palette_backend_results, merge_local,
  merge_command_palette_local_results, Call, opened, limited, replaced, closed, entered, typed,
  erased, moved, found, found_locally, perform,
}

-- The selection is on one of the rows, or on zero when there are none.
abbrev pub IsSelectable : CommandPaletteSnapshot → Type 0
IsSelectable c = (n : ℕ) × (c.selected_index ≡ pos n) × (n ≤ length c.results - 1)

clamp_selection-IsSelectable :
    (c : CommandPaletteSnapshot) (n : ℕ)
    → c.selected_index ≡ pos n
    → IsSelectable (clamp_selection c)
unfolding clamp_selection
clamp_selection-IsSelectable c n e =
    elim (Bool-cases (leb_ℤ (pos (length c.results)) c.selected_index)) [
      | inl beyond ↦ rw beyond (
        clamped _ (length c.results),
        clamp_index-pos _ (length c.results),
        clamped-le _ (length c.results),
      )
      | inr within ↦ let k = rw e at within in rw within (n, e, ground arith)
    ]

either-IsSelectable :
    (test : Bool) (x y : Model)
    → IsSelectable x.command
    → IsSelectable y.command
    → IsSelectable (if test then x else y).command
either-IsSelectable true x y h k = h
either-IsSelectable false x y h k = k

module _ (change : CommandPaletteSnapshot → CommandPaletteSnapshot) (m : Model)
    (before : IsSelectable m.command) (after : IsSelectable (change m.command)) where
  when_visible-IsSelectable : IsSelectable (when_visible change m).command
  when_visible-IsSelectable =
      either-IsSelectable m.command.visible (record m { command = change m.command }) m after before

  -- With another guard in front.
  guarded-IsSelectable :
      (guard : Bool) → IsSelectable (if guard then m else when_visible change m).command
  guarded-IsSelectable guard =
      either-IsSelectable guard m (when_visible change m) before when_visible-IsSelectable

moved-IsSelectable :
    (delta : ℤ) (c : CommandPaletteSnapshot) → IsSelectable (with_selection_moved delta c)
moved-IsSelectable delta c = (
  clamped (c.selected_index +ℤ delta) (length c.results),
  clamp_index-pos (c.selected_index +ℤ delta) (length c.results),
  clamped-le (c.selected_index +ℤ delta) (length c.results),
)

with_results-IsSelectable :
    (results : List SearchResult) (c : CommandPaletteSnapshot)
    → IsSelectable c
    → IsSelectable (with_results results c)
with_results-IsSelectable results c (n, e, h) =
    clamp_selection-IsSelectable (record c { results = results }) n e

get_elem?-some :
    (rows : List SearchResult) (n : ℕ)
    → n < length rows
    → (row : SearchResult) × (get_elem? rows n ≡ some row)
get_elem?-some [] n h = absurd (omega arith)
get_elem?-some (row ∷ rows) zero h = (row, refl)
get_elem?-some (row ∷ rows) (suc n) h = get_elem?-some rows n (omega arith)

module _ (is_account is_contract : String → Bool) where
  with_input-IsSelectable :
      (value : String) (c : CommandPaletteSnapshot)
      → IsSelectable c
      → IsSelectable (with_input is_account is_contract value c)
  with_input-IsSelectable value c h =
      with_results-IsSelectable (infer is_account is_contract value) (record c { input = value }) h

  perform-IsSelectable :
      (call : Call is_account is_contract) (m : Model)
      → IsSelectable m.command
      → IsSelectable (perform is_account is_contract call m).command
  unfolding perform open_command_palette set_command_palette_search_limit
      set_command_palette_results close_command_palette set_command_palette_input
      append_command_palette_input trim_command_palette_input merge_command_palette_backend_results
      merge_command_palette_local_results move_command_palette_selection
  perform-IsSelectable (opened prompt seed) m h = (0, refl, omega arith)
  perform-IsSelectable (limited limit) m h =
      guarded-IsSelectable (λ c. record c { search_limit = limit }) m h h (leb_ℤ limit (pos 0))
  perform-IsSelectable (replaced results) m h =
      when_visible-IsSelectable (λ c. with_results results c) m h
        (with_results-IsSelectable results m.command h)
  perform-IsSelectable closed m h =
      either-IsSelectable m.command.visible (with_palette_closed m) m (0, refl, omega arith) h
  perform-IsSelectable (entered value) m h =
      when_visible-IsSelectable (λ c. with_input is_account is_contract value c) m h
        (with_input-IsSelectable value m.command h)
  perform-IsSelectable (typed value) m h =
      guarded-IsSelectable (λ c. with_input is_account is_contract (c.input +s value) c) m h
        (with_input-IsSelectable (m.command.input +s value) m.command h) (is_empty value)
  perform-IsSelectable erased m h =
      guarded-IsSelectable (λ c. with_input is_account is_contract (drop_last c.input) c) m h
        (with_input-IsSelectable (drop_last m.command.input) m.command h) (is_empty m.command.input)
  perform-IsSelectable (moved delta) m h =
      guarded-IsSelectable (λ c. with_selection_moved delta c) m h
        (moved-IsSelectable delta m.command) ((length m.command.results == 0) || eq_ℤ delta (pos 0))
  perform-IsSelectable (found results) m h =
      when_visible-IsSelectable
        (λ c. with_results (merge_backend is_account is_contract results c) c) m h
        (with_results-IsSelectable (merge_backend is_account is_contract results m.command)
          m.command h)
  perform-IsSelectable (found_locally results) m h =
      when_visible-IsSelectable (λ c. with_results (merge_local is_account is_contract results c) c)
        m h
        (with_results-IsSelectable (merge_local is_account is_contract results m.command) m.command
          h)

  abbrev pub perform_all : List (Call is_account is_contract) → Model → Model
  perform_all [] m = m
  perform_all (call ∷ calls) m = perform_all calls (perform is_account is_contract call m)

  -- Whatever is done with the command palette, and whatever `strkey.Decode` takes as an address: if
  -- its selection was on a row (or on zero without rows) then it is so afterwards.
  pub perform_all-IsSelectable :
      (calls : List (Call is_account is_contract)) (m : Model)
      → IsSelectable m.command
      → IsSelectable (perform_all calls m).command
  perform_all-IsSelectable [] m h = h
  perform_all-IsSelectable (call ∷ calls) m h =
      perform_all-IsSelectable calls (perform is_account is_contract call m)
        (perform-IsSelectable call m h)

-- An open palette with a row has a selected result, while its selection is on a row.
pub selected_command_palette_result-some :
    (m : Model)
    → IsSelectable m.command
    → m.command.visible ≡ true
    → 0 < length m.command.results
    → (row : SearchResult) × (selected_command_palette_result m ≡ some row)
unfolding selected_command_palette_result
selected_command_palette_result-some m (n, e, h) shown some_row =
    let (row, there) = get_elem?-some m.command.results n (omega arith) in
    let above : ltb_ℤ (pos n) (pos 0) ≡ false = ground arith in (row, rw (shown, e, above) there)
