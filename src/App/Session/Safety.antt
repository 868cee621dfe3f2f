-- ===== src/App/Session/Safety.antt =====
-- Every model of a session is well formed.
use stellarview_tui.Prelude.{String, refl, arith}
use stellarview_tui.Config.{Config}
use stellarview_tui.App.State.{CacheSnapshot, Model}
use stellarview_tui.App.WellFormed.Feed.{
  apply_live_feed_stream_update-WellFormed, set_live_feed_paused-WellFormed,
  set_live_feed_source_mode-WellFormed, shift_live_feed_replay-WellFormed,
  set_live_feed_filter_command-WellFormed, cycle_live_feed_filter-WellFormed,
  restore_live_feed_scrollback-WellFormed, refresh_live_feed-WellFormed,
}
use stellarview_tui.App.WellFormed.Moves.{
  capture-WellFormed, restore_live_feed_monitoring_context-WellFormed,
  return_to_live_monitoring-WellFormed, apply_watch_settings-WellFormed, set_screen-WellFormed,
  restore_screen-WellFormed,
}
use stellarview_tui.App.WellFormed.Back.{back-WellFormed, forward-WellFormed}
use stellarview_tui.App.WellFormed.Views.{
  show_lookup-WellFormed, set_lookup_loading-WellFormed, set_lookup_error-WellFormed,
  open_explorer-WellFormed, open_lookup_result_explorer-WellFormed,
  close_lookup_explorer-WellFormed,
}
use stellarview_tui.App.WellFormed.Commands.{
  cycle_contract_workspace_tab-WellFormed, toggle_lookup_expand_all-WellFormed,
  toggle_lookup_visual_mode-WellFormed, set_contract_decode_mode-WellFormed,
  move_selection-WellFormed, handle_command-WellFormed,
}
use stellarview_tui.App.Monitoring.{set_lookup_return_context, clear_lookup_return_context}
use stellarview_tui.App.History.{is_valid_screen}
use stellarview_tui.App.Lookup.{
  update_lookup_transaction, update_lookup_operation, update_lookup_ledger, update_lookup_account,
  update_lookup_asset, update_lookup_contract, update_lookup_event, update_lookup_storage_entry,
  set_lookup_metadata, set_lookup_selection,
}
use stellarview_tui.App.Explorer.{
  open_lookup_transaction_explorer, open_lookup_operation_explorer, open_lookup_holder_explorer,
  open_lookup_event_explorer, open_lookup_storage_explorer, open_lookup_invocation_explorer,
  open_lookup_timeline_explorer,
}
use stellarview_tui.App.Command.{
  update_cache_snapshot, toggle_help_overlay, mark_default_watch_applied, focus_next_available,
}
use stellarview_tui.App.WellFormed.{WellFormed}
use stellarview_tui.App.Session.{
  new_model, Event, step, Reachable, started, then_step, streamed, paused, source_mode_set,
  replay_shifted, filter_set, filter_cycled, scrollback_restored, refreshed, monitoring_captured,
  monitoring_restored, return_set, return_cleared, returned_live, watch_applied, screen_set,
  screen_restored, went_back, went_forward, transaction_shown, operation_shown, ledger_shown,
  account_shown, asset_shown, contract_shown, event_shown, storage_shown, metadata_set, loading_set,
  error_set, selection_set, transactions_listed, operations_listed, holders_listed, events_listed,
  entries_listed, invocations_listed, timeline_listed, results_listed, list_closed, tab_cycled,
  expand_toggled, visual_toggled, decode_mode_set, cache_updated, help_toggled, watch_marked,
  focus_moved, selection_moved, commanded,
}

-- One call of any operation keeps a model well formed.
pub step-WellFormed : (event : Event) (m : Model) → WellFormed m → WellFormed (step event m)
unfolding step set_lookup_return_context clear_lookup_return_context update_lookup_transaction
    update_lookup_operation update_lookup_ledger update_lookup_account update_lookup_asset
    update_lookup_contract update_lookup_event update_lookup_storage_entry set_lookup_metadata
    set_lookup_selection open_lookup_transaction_explorer open_lookup_operation_explorer
    open_lookup_holder_explorer open_lookup_event_explorer open_lookup_storage_explorer
    open_lookup_invocation_explorer open_lookup_timeline_explorer update_cache_snapshot
    toggle_help_overlay mark_default_watch_applied focus_next_available
step-WellFormed (streamed update) m h = apply_live_feed_stream_update-WellFormed update m h
step-WellFormed (paused pause) m h = set_live_feed_paused-WellFormed pause m h
step-WellFormed (source_mode_set mode) m h = set_live_feed_source_mode-WellFormed mode m h
step-WellFormed (replay_shifted delta) m h = shift_live_feed_replay-WellFormed delta m h
step-WellFormed (filter_set fields) m h = set_live_feed_filter_command-WellFormed fields m h
step-WellFormed filter_cycled m h = cycle_live_feed_filter-WellFormed m h
step-WellFormed (scrollback_restored transactions) m h =
    restore_live_feed_scrollback-WellFormed transactions m h
step-WellFormed (refreshed reply merges source) m h =
    refresh_live_feed-WellFormed reply merges source m h
step-WellFormed (monitoring_captured index offset) m h = capture-WellFormed index offset m h
step-WellFormed monitoring_restored m h = restore_live_feed_monitoring_context-WellFormed m h
step-WellFormed (return_set screen label) m h = h
step-WellFormed return_cleared m h = h
step-WellFormed returned_live m h = return_to_live_monitoring-WellFormed m h
step-WellFormed (watch_applied spec pause) m h = apply_watch_settings-WellFormed spec pause m h
step-WellFormed (screen_set screen) m h = set_screen-WellFormed screen m h
step-WellFormed (screen_restored screen) m h = restore_screen-WellFormed screen m h
step-WellFormed went_back m h = back-WellFormed m h
step-WellFormed went_forward m h = forward-WellFormed m h
step-WellFormed (transaction_shown query response sources) m h = show_lookup-WellFormed _ _ _ m h
step-WellFormed (operation_shown query response sources) m h = show_lookup-WellFormed _ _ _ m h
step-WellFormed (ledger_shown query response sources) m h = show_lookup-WellFormed _ _ _ m h
step-WellFormed (account_shown query response sources) m h = show_lookup-WellFormed _ _ _ m h
step-WellFormed (asset_shown query response sources) m h = show_lookup-WellFormed _ _ _ m h
step-WellFormed (contract_shown query response sources) m h = show_lookup-WellFormed _ _ _ m h
step-WellFormed (event_shown query response sources) m h = show_lookup-WellFormed _ _ _ m h
step-WellFormed (storage_shown query response sources) m h = show_lookup-WellFormed _ _ _ m h
step-WellFormed (metadata_set metadata) m h = h
step-WellFormed (loading_set kind query source) m h =
    set_lookup_loading-WellFormed kind query source m h
step-WellFormed (error_set kind query problem source) m h =
    set_lookup_error-WellFormed kind query problem source m h
step-WellFormed (selection_set section offset) m h = h
step-WellFormed (transactions_listed title back_command limit offset next_command rows) m h =
    open_explorer-WellFormed _ _ _ m h
step-WellFormed (operations_listed title back_command limit offset next_command rows) m h =
    open_explorer-WellFormed _ _ _ m h
step-WellFormed (holders_listed title back_command limit offset next_command rows) m h =
    open_explorer-WellFormed _ _ _ m h
step-WellFormed (events_listed title back_command limit offset next_command rows) m h =
    open_explorer-WellFormed _ _ _ m h
step-WellFormed (entries_listed title back_command limit offset next_command rows) m h =
    open_explorer-WellFormed _ _ _ m h
step-WellFormed (invocations_listed title back_command limit offset next_command rows) m h =
    open_explorer-WellFormed _ _ _ m h
step-WellFormed (timeline_listed title back_command limit offset next_command rows) m h =
    open_explorer-WellFormed _ _ _ m h
step-WellFormed (results_listed title parent_label back_command results limit offset source) m h =
    open_lookup_result_explorer-WellFormed title parent_label back_command results limit offset
      source m h
step-WellFormed list_closed m h = close_lookup_explorer-WellFormed m h
step-WellFormed (tab_cycled delta) m h = cycle_contract_workspace_tab-WellFormed delta m h
step-WellFormed expand_toggled m h = toggle_lookup_expand_all-WellFormed m h
step-WellFormed visual_toggled m h = toggle_lookup_visual_mode-WellFormed m h
step-WellFormed (decode_mode_set mode) m h = set_contract_decode_mode-WellFormed mode m h
step-WellFormed (cache_updated snapshot) m h = h
step-WellFormed help_toggled m h = h
step-WellFormed watch_marked m h = h
step-WellFormed (focus_moved areas) m h = h
step-WellFormed (selection_moved delta) m h = move_selection-WellFormed delta m h
step-WellFormed (commanded input) m h = handle_command-WellFormed input m h

new_model-WellFormed :
    (cfg : Config) (config_path : String) (cache_snapshot : CacheSnapshot)
    → WellFormed (new_model cfg config_path cache_snapshot)
unfolding new_model is_valid_screen
new_model-WellFormed cfg config_path cache_snapshot = record {
  feed = record { short = omega arith; sorted = tt; distinct = (tt, tt) };
  bounded = omega arith;
  here = refl;
  earlier = tt;
  later = tt;
}

-- In every model that a session reaches from a new one, whatever operations are called with
-- whatever arguments and answers of the backend: the scrollback holds at most 100 transactions,
-- sorted and each with a hash of its own; the two stacks of lookups together hold at most 50; and
-- the current screen and those of both histories are valid.
pub Reachable-WellFormed :
    (cfg : Config) (config_path : String) (cache_snapshot : CacheSnapshot) (m : Model)
    → Reachable (new_model cfg config_path cache_snapshot) m
    → WellFormed m
Reachable-WellFormed cfg config_path cache_snapshot _ started =
    new_model-WellFormed cfg config_path cache_snapshot
Reachable-WellFormed cfg config_path cache_snapshot _ (then_step event m r) =
    step-WellFormed event m (Reachable-WellFormed cfg config_path cache_snapshot m r)
