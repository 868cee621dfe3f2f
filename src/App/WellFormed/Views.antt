-- ===== src/App/WellFormed/Views.antt =====
-- Showing lookups and lists, and typed commands, keep the model well formed.
use stellarview_tui.Prelude.{String, Option, none, some, List, str_eq, if-either}
use stellarview_tui.Prelude.Int.{ℤ}
use stellarview_tui.App.State.{
  LookupSnapshot, LookupExplorerSnapshot, SourceMetadata, SearchResult, Model,
}
use stellarview_tui.App.Lookup.{show_lookup, set_lookup_loading, set_lookup_error}
use stellarview_tui.App.Explorer.{
  open_explorer, open_lookup_result_explorer, closed, close_lookup_explorer,
}
use stellarview_tui.App.WellFormed.{WellFormed, with_screens}
use stellarview_tui.App.WellFormed.Moves.{
  push_lookup_history-WellFormed, to_lookup-WellFormed, lookup_valid,
}

pub show_lookup-WellFormed :
    (snapshot : LookupSnapshot) (format query : String) (m : Model)
    → WellFormed m
    → WellFormed (show_lookup snapshot format query m)
unfolding show_lookup
show_lookup-WellFormed snapshot format query m h =
    to_lookup-WellFormed _ (push_lookup_history-WellFormed m h)

pub set_lookup_loading-WellFormed :
    (kind query : String) (source : List SourceMetadata) (m : Model)
    → WellFormed m
    → WellFormed (set_lookup_loading kind query source m)
unfolding set_lookup_loading
set_lookup_loading-WellFormed kind query source m h = with_screens lookup_valid h.earlier h.later h

pub set_lookup_error-WellFormed :
    (kind query error : String) (source : List SourceMetadata) (m : Model)
    → WellFormed m
    → WellFormed (set_lookup_error kind query error source m)
unfolding set_lookup_error
set_lookup_error-WellFormed kind query error source m h = to_lookup-WellFormed m h

pub open_explorer-WellFormed :
    (explorer : LookupExplorerSnapshot) (format title : String) (m : Model)
    → WellFormed m
    → WellFormed (open_explorer explorer format title m)
unfolding open_explorer
open_explorer-WellFormed explorer format title m h =
    let pushed = push_lookup_history-WellFormed m h in
    if-either WellFormed (str_eq m.lookup.state "ready") _ m
      (with_screens lookup_valid pushed.earlier pushed.later pushed) h

pub open_lookup_result_explorer-WellFormed :
    (title parent_label back_command : String) (results : List SearchResult) (limit offset : ℤ)
    (source : List SourceMetadata) (m : Model)
    → WellFormed m
    → WellFormed
        (open_lookup_result_explorer title parent_label back_command results limit offset source m)
unfolding open_lookup_result_explorer
open_lookup_result_explorer-WellFormed title parent_label back_command results limit offset source m
      h =
    to_lookup-WellFormed _ (push_lookup_history-WellFormed m h)

closed-WellFormed :
    (explorer : Option LookupExplorerSnapshot) (m : Model)
    → WellFormed m
    → WellFormed (closed explorer m)
unfolding closed
closed-WellFormed none m h = h
closed-WellFormed (some explorer) m h = push_lookup_history-WellFormed m h

pub close_lookup_explorer-WellFormed :
    (m : Model) → WellFormed m → WellFormed (close_lookup_explorer m)
unfolding close_lookup_explorer
close_lookup_explorer-WellFormed m h = closed-WellFormed m.lookup.explorer m h
