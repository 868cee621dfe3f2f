-- ===== src/App/Session.antt =====
-- A session of the terminal client: it starts with `NewModel` of tui/internal/app/model.go, and
-- each of its steps is one call of an operation of the model.
pub mod Safety
use stellarview_tui.Prelude.{ℕ, String, Bool, false, none, if◌then◌else◌, List, [], ◌∷◌}
use stellarview_tui.Prelude.Int.{ℤ, pos}
use stellarview_tui.Config.{Config, profile}
use stellarview_tui.Client.Transactions.{
  TransactionSummary, OperationSummary, LedgerLookupResponse, TransactionLookupResponse,
  OperationLookupSnapshot,
}
use stellarview_tui.Client.Accounts.{AssetHolderSummary, AccountLookupResponse, AssetLookupResponse}
use stellarview_tui.Client.Contracts.{
  ContractEventSummary, ContractStorageSummary, ContractLookupResponse, ContractEventLookupSnapshot,
  ContractStorageLookupSnapshot,
}
use stellarview_tui.App.State.{
  text, Screen, FocusArea, LookupKind, ContractDecodeMode, SourceMetadata, SearchResult,
  CacheSnapshot, LookupMetadataSnapshot, LiveFeedFilterSpec, LiveFeedStreamUpdate,
  CommandPaletteSnapshot, Model,
}
use stellarview_tui.App.Sources.{
  status, status_info, status_warn, profile_has_data_backend, active_backend_label,
  default_source_metadata,
}
use stellarview_tui.App.Filter.{default_live_feed_filter_spec}
use stellarview_tui.App.Stream.{
  apply_live_feed_stream_update, set_live_feed_paused, set_live_feed_source_mode,
  shift_live_feed_replay, set_live_feed_filter_command, cycle_live_feed_filter,
  restore_live_feed_scrollback,
}
use stellarview_tui.App.Refresh.{Reply, refresh_live_feed}
use stellarview_tui.App.Monitoring.{
  screen_home, no_lookup, no_monitoring, capture_live_feed_monitoring_context,
  restore_live_feed_monitoring_context, set_lookup_return_context, clear_lookup_return_context,
  return_to_live_monitoring, apply_watch_settings,
}
use stellarview_tui.App.History.{set_screen, restore_screen, back, forward}
use stellarview_tui.App.Lookup.{
  update_lookup_transaction, update_lookup_operation, update_lookup_ledger, update_lookup_account,
  update_lookup_asset, update_lookup_contract, update_lookup_event, update_lookup_storage_entry,
  set_lookup_metadata, set_lookup_loading, set_lookup_error, set_lookup_selection,
}
use stellarview_tui.App.Explorer.{
  open_lookup_transaction_explorer, open_lookup_operation_explorer, open_lookup_holder_explorer,
  open_lookup_event_explorer, open_lookup_storage_explorer, open_lookup_invocation_explorer,
  open_lookup_timeline_explorer, open_lookup_result_explorer, close_lookup_explorer,
}
use stellarview_tui.App.Workspace.{
  cycle_contract_workspace_tab, toggle_lookup_expand_all, toggle_lookup_visual_mode,
  set_contract_decode_mode,
}
use stellarview_tui.App.Command.{
  update_cache_snapshot, toggle_help_overlay, mark_default_watch_applied, focus_next_available,
  move_selection, handle_command,
}

abbrev no_command : CommandPaletteSnapshot
no_command = record {
  visible = false;
  prompt = "";
  input = "";
  results = [];
  selected_index = pos 0;
  search_limit = pos 0;
}

-- `NewModel`
unfoldable pub new_model : Config → String → CacheSnapshot → Model
new_model cfg config_path cache_snapshot =
    let (p, found) = profile cfg cfg.default_profile in
    record {
      config = cfg;
      config_path = config_path;
      current = screen_home;
      history = [];
      forward = [];
      status =
          if found
          then status status_info "Loaded profile %q on %s via %s."
              (text p.name ∷ text p.network ∷ text p.backend_mode ∷ [])
          else status status_warn "No default profile available. Check local configuration." [];
      focus = "main";
      help_visible = false;
      cache = cache_snapshot;
      live_feed = record {
        configured = profile_has_data_backend p;
        available = false;
        state = "idle";
        backend_url = active_backend_label p;
        source = default_source_metadata p "live-feed";
        source_mode = "poll";
        last_ingested_ledger = 0;
        latest_ledger = none;
        recent_transactions = [];
        scrollback = [];
        paused = false;
        filter = "all";
        replay_offset = pos 0;
        scrollback_count = pos 0;
        max_scrollback = pos 100;
        last_update_count = pos 0;
        error = "";
      };
      lookup = no_lookup;
      lookup_history = [];
      lookup_forward = [];
      selection = record { live_feed_index = pos 0; live_feed_scroll_offset = pos 0 };
      command = no_command;
      live_feed_all = [];
      live_feed_pending_stream = [];
      live_feed_filter_spec = default_live_feed_filter_spec;
      live_feed_monitoring = no_monitoring;
      default_watch_applied = false;
    }

-- A call of an operation, with its arguments.
pub data Event : Type 0 where
  streamed : LiveFeedStreamUpdate → Event
  paused : Bool → Event
  source_mode_set : String → Event
  replay_shifted : ℤ → Event
  filter_set : List String → Event
  filter_cycled : Event
  scrollback_restored : List TransactionSummary → Event
  refreshed : Reply → Bool → List SourceMetadata → Event
  monitoring_captured : ℤ → ℤ → Event
  monitoring_restored : Event
  return_set : Screen → String → Event
  return_cleared : Event
  returned_live : Event
  watch_applied : LiveFeedFilterSpec → Bool → Event
  screen_set : Screen → Event
  screen_restored : Screen → Event
  went_back : Event
  went_forward : Event
  transaction_shown : String → TransactionLookupResponse → List SourceMetadata → Event
  operation_shown : String → OperationLookupSnapshot → List SourceMetadata → Event
  ledger_shown : String → LedgerLookupResponse → List SourceMetadata → Event
  account_shown : String → AccountLookupResponse → List SourceMetadata → Event
  asset_shown : String → AssetLookupResponse → List SourceMetadata → Event
  contract_shown : String → ContractLookupResponse → List SourceMetadata → Event
  event_shown : String → ContractEventLookupSnapshot → List SourceMetadata → Event
  storage_shown : String → ContractStorageLookupSnapshot → List SourceMetadata → Event
  metadata_set : LookupMetadataSnapshot → Event
  loading_set : LookupKind → String → List SourceMetadata → Event
  error_set : LookupKind → String → String → List SourceMetadata → Event
  selection_set : ℤ → ℤ → Event
  transactions_listed : String → String → ℤ → ℤ → List String → List TransactionSummary → Event
  operations_listed : String → String → ℤ → ℤ → List String → List OperationSummary → Event
  holders_listed : String → String → ℤ → ℤ → List String → List AssetHolderSummary → Event
  events_listed : String → String → ℤ → ℤ → List String → List ContractEventSummary → Event
  entries_listed : String → String → ℤ → ℤ → List String → List ContractStorageSummary → Event
  invocations_listed : String → String → ℤ → ℤ → List String → List OperationSummary → Event
  timeline_listed : String → String → ℤ → ℤ → List String → List SearchResult → Event
  results_listed :
      String → String → String → List SearchResult → ℤ → ℤ → List SourceMetadata → Event
  list_closed : Event
  tab_cycled : ℤ → Event
  expand_toggled : Event
  visual_toggled : Event
  decode_mode_set : ContractDecodeMode → Event
  cache_updated : CacheSnapshot → Event
  help_toggled : Event
  watch_marked : Event
  focus_moved : List FocusArea → Event
  selection_moved : ℤ → Event
  commanded : String → Event

-- The model after a call.
unfoldable pub step : Event → Model → Model
step (streamed update) m = (apply_live_feed_stream_update update m).1
step (paused pause) m = set_live_feed_paused pause m
step (source_mode_set mode) m = set_live_feed_source_mode mode m
step (replay_shifted delta) m = shift_live_feed_replay delta m
step (filter_set fields) m = (set_live_feed_filter_command fields m).1
step filter_cycled m = cycle_live_feed_filter m
step (scrollback_restored transactions) m = restore_live_feed_scrollback transactions m
step (refreshed reply merges source) m = (refresh_live_feed reply merges source m).1
step (monitoring_captured index offset) m = capture_live_feed_monitoring_context index offset m
step monitoring_restored m = (restore_live_feed_monitoring_context m).1
step (return_set screen label) m = set_lookup_return_context screen label m
step return_cleared m = clear_lookup_return_context m
step returned_live m = (return_to_live_monitoring m).1
step (watch_applied spec pause) m = apply_watch_settings spec pause m
step (screen_set screen) m = (set_screen screen m).1
step (screen_restored screen) m = (restore_screen screen m).1
step went_back m = (back m).1
step went_forward m = (forward m).1
step (transaction_shown query response sources) m =
    update_lookup_transaction query response sources m
step (operation_shown query response sources) m = update_lookup_operation query response sources m
step (ledger_shown query response sources) m = update_lookup_ledger query response sources m
step (account_shown query response sources) m = update_lookup_account query response sources m
step (asset_shown query response sources) m = update_lookup_asset query response sources m
step (contract_shown query response sources) m = update_lookup_contract query response sources m
step (event_shown query response sources) m = update_lookup_event query response sources m
step (storage_shown query response sources) m = update_lookup_storage_entry query response sources m
step (metadata_set metadata) m = set_lookup_metadata metadata m
step (loading_set kind query source) m = set_lookup_loading kind query source m
step (error_set kind query problem source) m = set_lookup_error kind query problem source m
step (selection_set section offset) m = set_lookup_selection section offset m
step (transactions_listed title back_command limit offset next_command rows) m =
    open_lookup_transaction_explorer title back_command limit offset next_command rows m
step (operations_listed title back_command limit offset next_command rows) m =
    open_lookup_operation_explorer title back_command limit offset next_command rows m
step (holders_listed title back_command limit offset next_command rows) m =
    open_lookup_holder_explorer title back_command limit offset next_command rows m
step (events_listed title back_command limit offset next_command rows) m =
    open_lookup_event_explorer title back_command limit offset next_command rows m
step (entries_listed title back_command limit offset next_command rows) m =
    open_lookup_storage_explorer title back_command limit offset next_command rows m
step (invocations_listed title back_command limit offset next_command rows) m =
    open_lookup_invocation_explorer title back_command limit offset next_command rows m
step (timeline_listed title back_command limit offset next_command rows) m =
    open_lookup_timeline_explorer title back_command limit offset next_command rows m
step (results_listed title parent_label back_command results limit offset source) m =
    open_lookup_result_explorer title parent_label back_command results limit offset source m
step list_closed m = close_lookup_explorer m
step (tab_cycled delta) m = (cycle_contract_workspace_tab delta m).1
step expand_toggled m = (toggle_lookup_expand_all m).1
step visual_toggled m = (toggle_lookup_visual_mode m).1
step (decode_mode_set mode) m = (set_contract_decode_mode mode m).1
step (cache_updated snapshot) m = update_cache_snapshot snapshot m
step help_toggled m = toggle_help_overlay m
step watch_marked m = mark_default_watch_applied m
step (focus_moved areas) m = focus_next_available areas m
step (selection_moved delta) m = move_selection delta m
step (commanded input) m = (handle_command input m).1

-- The models of a session that began with `start`.
pub data Reachable (start : Model) : Model → Type 0 where
  started : Reachable start start
  then_step : (event : Event) (m : Model) → Reachable start m → Reachable start (step event m)
