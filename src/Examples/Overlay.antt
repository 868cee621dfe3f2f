-- ===== src/Examples/Overlay.antt =====
-- The command palette at concrete inputs.
use stellarview_tui.Prelude.{◌+◌, ◌≡◌, refl, String, Bool, true, List, [], ◌∷◌, str_eq, arith}
use stellarview_tui.Prelude.Int.{pos, ◌+ℤ◌}
use stellarview_tui.App.State.{SearchResult}
use stellarview_tui.Prelude.Text.{
  to_lower, trim_space, fields, join, starts_with, contains, trim_prefix, cut, parse_decimal,
}
use stellarview_tui.App.Feed.{is_seen}
use stellarview_tui.App.Infer.{
  infer_search_results, from_query, is_transaction_hash, is_partial_transaction_hash,
  is_ledger_sequence, looks_like_explicit_command, truncate_value,
}
use stellarview_tui.App.Ranking.{
  search_result_score, command_target, parse_asset_query, is_partial_hex_query,
}
use stellarview_tui.App.Palette.{Call, opened, typed, erased, moved, found_locally}
use stellarview_tui.App.Palette.Kept.{IsSelectable, perform_all, perform_all-IsSelectable}
use stellarview_tui.App.Session.{new_model}
use stellarview_tui.Examples.Terminal.{fresh_start}

abbrev is_account : String → Bool
is_account text = str_eq text "GA"

abbrev is_contract : String → Bool
is_contract text = str_eq text "CA"

abbrev row : SearchResult
row = record {
  kind = "ledger";
  title = "Ledger";
  description = "42";
  command = "lookup ledger 42";
  enabled = true;
  source = "local";
}

abbrev calls : List (Call is_account is_contract)
calls = opened "/" "4" ∷ typed "2" ∷ found_locally (row ∷ []) ∷ moved (pos 7) ∷ erased ∷ []

perform_all-IsSelectable_example :
    IsSelectable (perform_all is_account is_contract calls fresh_start).command
unfolding new_model
perform_all-IsSelectable_example =
    perform_all-IsSelectable is_account is_contract calls fresh_start (0, refl, omega arith)

inferred : infer_search_results is_account is_contract " 42 " ≡ row ∷ []
unfolding infer_search_results from_query is_transaction_hash is_partial_transaction_hash
    is_ledger_sequence parse_decimal trim_space looks_like_explicit_command to_lower cut is_seen
    truncate_value
inferred = refl

scored : search_result_score "42" row ≡ pos (20 + 6 + 140 + 15)
unfolding search_result_score to_lower trim_space command_target fields join starts_with contains
    trim_prefix parse_asset_query cut is_partial_hex_query ◌+ℤ◌
scored = refl
