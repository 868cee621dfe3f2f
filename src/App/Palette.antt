-- ===== src/App/Palette.antt =====
-- The command palette of the model: tui/internal/app/model.go.
pub mod Kept
use stellarview_tui.Prelude.{
  ℕ, String, Bool, true, false, not, ◌||◌, Option, none, some, List, [], ◌∷◌, ◌++◌, map, length,
  ◌==◌, get_elem?, if◌then◌else◌,
}
use stellarview_tui.Prelude.Int.{ℤ, pos, ◌+ℤ◌, ◌-ℤ◌, leb_ℤ, ltb_ℤ, eq_ℤ, pos_part}
use stellarview_tui.Prelude.Text.{trim_space, is_empty, drop_last, ◌+s◌}
use stellarview_tui.Client.Accounts.{BackendSearchResult}
use stellarview_tui.App.State.{SearchResult, CommandPaletteSnapshot, Model}
use stellarview_tui.App.Sources.{status, status_info, clamp_index}
use stellarview_tui.App.Feed.{is_seen}
use stellarview_tui.App.Search.{default_search_result_limit}
use stellarview_tui.App.Infer.{infer_search_results}
use stellarview_tui.App.Ranking.{rank_search_results}

-- `searchResultDedupKey`
unfoldable pub search_result_dedup_key : SearchResult → String
search_result_dedup_key result =
    let command = trim_space result.command in
    if is_empty command
    then trim_space result.kind
      +s ":"
      +s trim_space result.title
      +s ":"
      +s trim_space result.description
    else command

abbrev pub no_palette : CommandPaletteSnapshot
no_palette = record {
  visible = false;
  prompt = "";
  input = "";
  results = [];
  selected_index = pos 0;
  search_limit = pos 0;
}

-- The test of the selection that every change of the rows ends with.
unfoldable pub clamp_selection : CommandPaletteSnapshot → CommandPaletteSnapshot
clamp_selection c = record c {
  selected_index =
      if leb_ℤ (pos (length c.results)) c.selected_index
      then clamp_index (pos (length c.results) -ℤ pos 1) (pos (length c.results))
      else c.selected_index;
}

abbrev pub with_results : List SearchResult → CommandPaletteSnapshot → CommandPaletteSnapshot
with_results results c = clamp_selection (record c { results = results })

-- The rows of the backend that are not there yet.
backend_row : BackendSearchResult → SearchResult
backend_row result =
    let source = trim_space result.source in
    record {
      kind = trim_space result.kind;
      title = trim_space result.title;
      description = trim_space result.description;
      command = trim_space result.command;
      enabled = true;
      source = if is_empty source then "indexer" else source;
    }

unfoldable pub fresh_backend_rows : List String → List BackendSearchResult → List SearchResult
unfolding backend_row
fresh_backend_rows seen [] = []
fresh_backend_rows seen (result ∷ results) =
    let command = trim_space result.command in
    let skipped = fresh_backend_rows seen results in
    let added = backend_row result ∷ fresh_backend_rows (command ∷ seen) results in
    if is_empty command || is_seen command seen then skipped else added

-- The local rows that are not there yet.
unfoldable pub fresh_local_rows : List String → List SearchResult → List SearchResult
fresh_local_rows seen [] = []
fresh_local_rows seen (result ∷ results) =
    let key = search_result_dedup_key result in
    let skipped = fresh_local_rows seen results in
    let added = result ∷ fresh_local_rows (key ∷ seen) results in
    if is_seen key seen then skipped else added

abbrev pub row_keys : List SearchResult → List String
row_keys results = map search_result_dedup_key results

abbrev pub with_palette_closed : Model → Model
with_palette_closed m = record m {
  command = no_palette;
  status = status status_info "Search overlay closed." [];
}

-- `CloseCommandPalette`
unfoldable pub close_command_palette : Model → Model
close_command_palette m = if m.command.visible then with_palette_closed m else m

-- `if !m.command.Visible { return }`
abbrev pub when_visible : (CommandPaletteSnapshot → CommandPaletteSnapshot) → Model → Model
when_visible change m = if m.command.visible then record m { command = change m.command } else m

-- `SetCommandPaletteSearchLimit`
unfoldable pub set_command_palette_search_limit : ℤ → Model → Model
set_command_palette_search_limit limit m =
    if leb_ℤ limit (pos 0) then m else when_visible (λ c. record c { search_limit = limit }) m

-- `SetCommandPaletteResults`
unfoldable pub set_command_palette_results : List SearchResult → Model → Model
set_command_palette_results results m = when_visible (λ c. with_results results c) m

abbrev pub with_selection_moved : ℤ → CommandPaletteSnapshot → CommandPaletteSnapshot
with_selection_moved delta c = record c {
  selected_index = clamp_index (c.selected_index +ℤ delta) (pos (length c.results));
}

-- `MoveCommandPaletteSelection`
unfoldable pub move_command_palette_selection : ℤ → Model → Model
move_command_palette_selection delta m =
    if (length m.command.results == 0) || eq_ℤ delta (pos 0)
    then m
    else when_visible (λ c. with_selection_moved delta c) m

-- `SelectedCommandPaletteResult`
unfoldable pub selected_command_palette_result : Model → Option SearchResult
selected_command_palette_result m =
    let c = m.command in
    if not c.visible || ltb_ℤ c.selected_index (pos 0)
    then none
    else get_elem? c.results (pos_part c.selected_index)

-- The palette, with what `strkey.Decode` takes as an account and as a contract.
module _ (is_account_address is_contract_address : String → Bool) where
  abbrev pub infer : String → List SearchResult
  infer input = infer_search_results is_account_address is_contract_address input

  -- `OpenCommandPalette`
  unfoldable pub open_command_palette : String → String → Model → Model
  open_command_palette prompt seed m = record m {
    help_visible = false;
    command = record {
      visible = true;
      prompt = prompt;
      input = seed;
      results = infer seed;
      selected_index = pos 0;
      search_limit = pos default_search_result_limit;
    };
    status = status status_info "Search overlay opened." [];
  }

  -- `refreshCommandPaletteResults`, after a change of the input
  abbrev pub with_input : String → CommandPaletteSnapshot → CommandPaletteSnapshot
  with_input value c = with_results (infer value) (record c { input = value })

  -- `SetCommandPaletteInput`
  unfoldable pub set_command_palette_input : String → Model → Model
  set_command_palette_input value m = when_visible (λ c. with_input value c) m

  -- `AppendCommandPaletteInput`
  unfoldable pub append_command_palette_input : String → Model → Model
  append_command_palette_input value m =
      if is_empty value then m else when_visible (λ c. with_input (c.input +s value) c) m

  -- `TrimCommandPaletteInput`
  unfoldable pub trim_command_palette_input : Model → Model
  trim_command_palette_input m =
      if is_empty m.command.input then m else when_visible (λ c. with_input (drop_last c.input) c) m

  -- The rows that a merge starts from.
  unfoldable pub rows_or_inferred : CommandPaletteSnapshot → List SearchResult
  rows_or_inferred c = if (length c.results == 0) then infer c.input else c.results

  abbrev pub merge_backend : List BackendSearchResult → CommandPaletteSnapshot → List SearchResult
  merge_backend results c =
      let rows = rows_or_inferred c in
      rank_search_results c.input (rows ++ fresh_backend_rows (row_keys rows) results)

  -- `MergeCommandPaletteBackendResults`
  unfoldable pub merge_command_palette_backend_results : List BackendSearchResult → Model → Model
  merge_command_palette_backend_results results m =
      when_visible (λ c. with_results (merge_backend results c) c) m

  abbrev pub merge_local : List SearchResult → CommandPaletteSnapshot → List SearchResult
  merge_local results c =
      let rows = rows_or_inferred c in
      rank_search_results c.input (rows ++ fresh_local_rows (row_keys rows) results)

  -- `MergeCommandPaletteLocalResults`
  unfoldable pub merge_command_palette_local_results : List SearchResult → Model → Model
  merge_command_palette_local_results results m =
      when_visible (λ c. with_results (merge_local results c) c) m

  -- A call of one of these methods.
  pub data Call : Type 0 where
    opened : String → String → Call
    limited : ℤ → Call
    replaced : List SearchResult → Call
    closed : Call
    entered : String → Call
    typed : String → Call
    erased : Call
    moved : ℤ → Call
    found : List BackendSearchResult → Call
    found_locally : List SearchResult → Call

  unfoldable pub perform : Call → Model → Model
  perform (opened prompt seed) m = open_command_palette prompt seed m
  perform (limited limit) m = set_command_palette_search_limit limit m
  perform (replaced results) m = set_command_palette_results results m
  perform closed m = close_command_palette m
  perform (entered value) m = set_command_palette_input value m
  perform (typed value) m = append_command_palette_input value m
  perform erased m = trim_command_palette_input m
  perform (moved delta) m = move_command_palette_selection delta m
  perform (found results) m = merge_command_palette_backend_results results m
  perform (found_locally results) m = merge_command_palette_local_results results m
