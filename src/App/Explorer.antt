-- ===== src/App/Explorer.antt =====
-- The lookup pane shows a list: `OpenLookup…Explorer` and `CloseLookupExplorer` of
-- tui/internal/app/model.go, and the route of navigation.go.
use stellarview_tui.Prelude.{
  String, false, not, ◌&&◌, Option, none, some, List, [], ◌∷◌, ◌++◌, map, length, str_eq,
  if◌then◌else◌,
}
use stellarview_tui.Prelude.Int.{ℤ, pos}
use stellarview_tui.Prelude.Text.{trim_space, is_empty, ◌+s◌}
use stellarview_tui.Client.Transactions.{TransactionSummary, OperationSummary}
use stellarview_tui.Client.Accounts.{AssetHolderSummary}
use stellarview_tui.Client.Contracts.{ContractEventSummary, ContractStorageSummary}
use stellarview_tui.App.State.{
  text, int, SourceMetadata, SearchResult, LookupExplorerKind, LookupExplorerSnapshot,
  LookupSnapshot, LookupRouteStep, Model,
}
use stellarview_tui.App.Sources.{status, status_info, first_optional_string, value_or_default}
use stellarview_tui.App.Monitoring.{screen_lookup}
use stellarview_tui.App.History.{push_history, push_lookup_history}
use stellarview_tui.App.Lookup.{detail, resolved_source}

-- An explorer of the current lookup before its rows are put in.
abbrev pub explorer_of :
    LookupExplorerKind
    → String
    → String
    → ℤ
    → ℤ
    → List String
    → LookupSnapshot
    → LookupExplorerSnapshot
explorer_of kind title back_command limit offset next_command lookup = record {
  kind = kind;
  title = trim_space title;
  parent_label = lookup.kind +s " " +s trim_space lookup.query;
  back_command = trim_space back_command;
  next_command = first_optional_string next_command;
  list_limit = limit;
  list_offset = offset;
  transactions = [];
  operations = [];
  holders = [];
  events = [];
  storage = [];
  results = [];
}

-- What every explorer of a lookup does: nothing unless the lookup is there.
unfoldable pub open_explorer : LookupExplorerSnapshot → String → String → Model → Model
open_explorer explorer format title m =
    if str_eq m.lookup.state "ready"
    then record (push_lookup_history m) {
      current = screen_lookup;
      help_visible = false;
      lookup = record m.lookup {
        selected_section = pos 0;
        scroll_offset = pos 0;
        explorer = some explorer;
      };
      status = status status_info format (text (trim_space title) ∷ []);
    }
    else m

module _ (title back_command : String) (limit offset : ℤ) (next_command : List String) where
  -- `OpenLookupTransactionExplorer`
  unfoldable pub open_lookup_transaction_explorer : List TransactionSummary → Model → Model
  open_lookup_transaction_explorer transactions m =
      open_explorer
        (record (explorer_of "transactions" title back_command limit offset next_command m.lookup) {
          transactions = transactions;
        })
        "Opened transaction explorer for %s." title m

  -- `OpenLookupOperationExplorer`
  unfoldable pub open_lookup_operation_explorer : List OperationSummary → Model → Model
  open_lookup_operation_explorer operations m =
      open_explorer
        (record (explorer_of "operations" title back_command limit offset next_command m.lookup) {
          operations = operations;
        })
        "Opened operation explorer for %s." title m

  -- `OpenLookupHolderExplorer`
  unfoldable pub open_lookup_holder_explorer : List AssetHolderSummary → Model → Model
  open_lookup_holder_explorer holders m =
      open_explorer
        (record (explorer_of "holders" title back_command limit offset next_command m.lookup) {
          holders = holders;
        })
        "Opened holder explorer for %s." title m

  -- `OpenLookupEventExplorer`
  unfoldable pub open_lookup_event_explorer : List ContractEventSummary → Model → Model
  open_lookup_event_explorer events m =
      open_explorer
        (record (explorer_of "events" title back_command limit offset next_command m.lookup) {
          events = events;
        })
        "Opened event explorer for %s." title m

  -- `OpenLookupStorageExplorer`
  unfoldable pub open_lookup_storage_explorer : List ContractStorageSummary → Model → Model
  open_lookup_storage_explorer entries m =
      open_explorer
        (record (explorer_of "storage" title back_command limit offset next_command m.lookup) {
          storage = entries;
        })
        "Opened storage explorer for %s." title m

  -- `OpenLookupInvocationExplorer`
  unfoldable pub open_lookup_invocation_explorer : List OperationSummary → Model → Model
  open_lookup_invocation_explorer operations m =
      open_explorer
        (record (explorer_of "invocations" title back_command limit offset next_command m.lookup) {
          operations = operations;
        })
        "Opened invocation explorer for %s." title m

  -- `OpenLookupTimelineExplorer`
  unfoldable pub open_lookup_timeline_explorer : List SearchResult → Model → Model
  open_lookup_timeline_explorer results m =
      open_explorer
        (record (explorer_of "timeline" title back_command limit offset next_command m.lookup) {
          results = results;
        })
        "Opened timeline for %s." title m

state_of_results : List SearchResult → String
state_of_results [] = "empty"
state_of_results (result ∷ results) = "ready"

-- `OpenLookupResultExplorer`
unfoldable pub open_lookup_result_explorer :
    String → String → String → List SearchResult → ℤ → ℤ → List SourceMetadata → Model → Model
unfolding state_of_results
open_lookup_result_explorer title parent_label back_command results limit offset source m =
    let found = resolved_source source "open" m in
    record (push_history screen_lookup (push_lookup_history m)) {
      current = screen_lookup;
      help_visible = false;
      lookup = record (detail "" title found) {
        state = state_of_results results;
        explorer = some (record {
          kind = "results";
          title = trim_space title;
          parent_label = trim_space parent_label;
          back_command = trim_space back_command;
          next_command = "";
          list_limit = limit;
          list_offset = offset;
          transactions = [];
          operations = [];
          holders = [];
          events = [];
          storage = [];
          results = results;
        });
      };
      status =
          status status_info "Opened %s explorer with %d result(s)."
            (text (trim_space title) ∷ int (pos (length results)) ∷ []);
    }

unfoldable pub closed : Option LookupExplorerSnapshot → Model → Model
closed none m = m
closed (some explorer) m = record (push_lookup_history m) {
  lookup = record m.lookup { explorer = none };
  status =
      status status_info "Returned to %s detail."
        (text (value_or_default (trim_space explorer.parent_label) "lookup") ∷ []);
}

-- `CloseLookupExplorer`
unfoldable pub close_lookup_explorer : Model → Model
close_lookup_explorer m = closed m.lookup.explorer m

route_step : LookupSnapshot → Option LookupExplorerSnapshot → LookupRouteStep
route_step snapshot none = record {
  kind = snapshot.kind;
  query = trim_space snapshot.query;
  explorer_kind = "";
  title = "";
  list_limit = pos 0;
  list_offset = pos 0;
}
route_step snapshot (some explorer) = record {
  kind = snapshot.kind;
  query = trim_space snapshot.query;
  explorer_kind = explorer.kind;
  title = trim_space explorer.title;
  list_limit = explorer.list_limit;
  list_offset = explorer.list_offset;
}

-- `lookupSnapshotToRouteStep`
unfoldable pub lookup_snapshot_to_route_step : LookupSnapshot → LookupRouteStep
unfolding route_step
lookup_snapshot_to_route_step snapshot = route_step snapshot snapshot.explorer

-- `buildLookupRoute`
unfoldable pub build_lookup_route : Model → List LookupRouteStep
build_lookup_route m =
    let route = map lookup_snapshot_to_route_step m.lookup_history in
    if str_eq m.lookup.state "ready" && not (is_empty (trim_space m.lookup.query))
    then route ++ lookup_snapshot_to_route_step m.lookup ∷ []
    else route
