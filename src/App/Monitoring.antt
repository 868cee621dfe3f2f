-- ===== src/App/Monitoring.antt =====
-- Leaving the live feed for a lookup and coming back: tui/internal/app/monitoring.go.
use stellarview_tui.Prelude.{
  String, Bool, true, false, ◌||◌, Option, none, some, List, [], ◌∷◌, length, str_eq, if◌then◌else◌,
}
use stellarview_tui.Prelude.Int.{ℤ, pos}
use stellarview_tui.Prelude.Text.{trim_space, is_empty, equal_fold}
use stellarview_tui.Client.Transactions.{TransactionSummary}
use stellarview_tui.App.State.{
  text, Screen, LookupReturnContext, LookupSnapshot, LiveFeedMonitoringContext, LiveFeedFilterSpec,
  Model, SourceMetadata, LookupMetadataSnapshot,
}
use stellarview_tui.App.Sources.{status, status_info, clamp_index}
use stellarview_tui.App.Filter.{no_spec, format_live_feed_filter}
use stellarview_tui.App.Feed.{row_at, key_of_row, find_key, apply_live_feed_view}

abbrev pub screen_home : Screen
screen_home = "home"

abbrev pub screen_live_feed : Screen
screen_live_feed = "live-feed"

abbrev pub screen_lookup : Screen
screen_lookup = "lookup"

abbrev pub screen_settings : Screen
screen_settings = "settings"

abbrev pub no_source : SourceMetadata
no_source = record {
  mode = "";
  operation = "";
  policy = "";
  preferred = "";
  actual = "";
  label = "";
  cache_state = "";
  fallback_used = false;
  degraded = false;
  degraded_reason = "";
}

abbrev pub no_metadata : LookupMetadataSnapshot
no_metadata = record { labels = []; bookmarks = []; notes = []; cached = none }

-- `LookupSnapshot{}`
abbrev pub no_lookup : LookupSnapshot
no_lookup = record {
  query = "";
  kind = "";
  backend_url = "";
  source = no_source;
  state = "";
  error = "";
  selected_section = pos 0;
  scroll_offset = pos 0;
  explorer = none;
  ledger = none;
  transaction = none;
  operation = none;
  account = none;
  asset = none;
  contract = none;
  event = none;
  storage_entry = none;
  decode_mode = "";
  contract_tab = "";
  expand_all = false;
  visual_mode = false;
  metadata = no_metadata;
  return_context = none;
}

-- `LiveFeedMonitoringContext{}`
abbrev pub no_monitoring : LiveFeedMonitoringContext
no_monitoring = record {
  active = false;
  selected_index = pos 0;
  scroll_offset = pos 0;
  selected_hash = "";
  paused = false;
  replay_offset = pos 0;
  filter_spec = no_spec;
}

-- `CaptureLiveFeedMonitoringContext`
unfoldable pub capture_live_feed_monitoring_context : ℤ → ℤ → Model → Model
capture_live_feed_monitoring_context selected_index scroll_offset m =
    if str_eq m.current screen_live_feed
    then record m {
      live_feed_monitoring = record {
        active = true;
        selected_index = selected_index;
        scroll_offset = scroll_offset;
        selected_hash = key_of_row (row_at m.live_feed.recent_transactions selected_index);
        paused = m.live_feed.paused;
        replay_offset = m.live_feed.replay_offset;
        filter_spec = m.live_feed_filter_spec;
      };
    }
    else m

-- The row of the context's transaction, else its index within bounds.
unfoldable pub restored_index : LiveFeedMonitoringContext → List TransactionSummary → ℤ
restored_index context rows =
    let found =
      if is_empty context.selected_hash
      then none
      else find_key equal_fold context.selected_hash rows 0 in
    elim found [ none ↦ clamp_index context.selected_index (pos (length rows)) | some i ↦ pos i ]

-- The restoration of a context that is active.
unfoldable pub restore_context : LiveFeedMonitoringContext → Model → Model
restore_context context m =
    let shown = apply_live_feed_view 0 (record m {
      live_feed_monitoring = no_monitoring;
      live_feed_filter_spec = context.filter_spec;
      live_feed = record m.live_feed {
        paused = context.paused;
        replay_offset = context.replay_offset;
      };
    }) in
    record shown {
      selection = record {
        live_feed_index = restored_index context shown.live_feed.recent_transactions;
        live_feed_scroll_offset = context.scroll_offset;
      };
      status = status status_info "Restored live feed monitoring context." [];
    }

-- `RestoreLiveFeedMonitoringContext`
unfoldable pub restore_live_feed_monitoring_context : Model → Bool × Model
restore_live_feed_monitoring_context m =
    if m.live_feed_monitoring.active
    then (true, restore_context m.live_feed_monitoring m)
    else (false, m)

-- `SetLookupReturnContext`
unfoldable pub set_lookup_return_context : Screen → String → Model → Model
set_lookup_return_context screen label m = record m {
  lookup = record m.lookup {
    return_context = some (record { screen = screen; label = trim_space label });
  };
}

-- `ClearLookupReturnContext`
unfoldable pub clear_lookup_return_context : Model → Model
clear_lookup_return_context m = record m { lookup = record m.lookup { return_context = none } }

-- Whether the lookup goes back to the live feed.
unfoldable pub returns_to_live : Option LookupReturnContext → Bool
returns_to_live none = false
returns_to_live (some context) = str_eq context.screen screen_live_feed

-- `ReturnToLiveMonitoring`
unfoldable pub return_to_live_monitoring : Model → Bool × Model
return_to_live_monitoring m =
    if returns_to_live m.lookup.return_context || m.live_feed_monitoring.active
    then (
      true,
      record (restore_live_feed_monitoring_context (record m {
        lookup_history = [];
        lookup_forward = [];
        lookup = record no_lookup { state = "idle" };
        current = screen_live_feed;
        help_visible = false;
      })).1 { status = status status_info "Returned to live feed monitoring." [] },
    )
    else (false, m)

-- `ApplyWatchSettings`
unfoldable pub apply_watch_settings : LiveFeedFilterSpec → Bool → Model → Model
apply_watch_settings filter_spec paused m =
    record (apply_live_feed_view 0 (record m {
      live_feed_filter_spec = filter_spec;
      live_feed = record m.live_feed { paused = paused; replay_offset = pos 0 };
    })) {
      status =
          status status_info "Applied watch settings: %s."
            (text (format_live_feed_filter filter_spec) ∷ []);
    }
