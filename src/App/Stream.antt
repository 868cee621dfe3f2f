-- ===== src/App/Stream.antt =====
-- How the live feed takes in updates, from the stream and from polling, and how it is paused,
-- replayed and filtered: tui/internal/app/live_feed.go and model.go.
pub mod Pause
use stellarview_tui.Prelude.{
  ℕ, zero, suc, ◌+◌, ◌-◌, String, Bool, true, false, not, ◌&&◌, ◌||◌, Option, none, some, List, [],
  ◌∷◌, ◌++◌, ltb, str_eq, length, is_some, if◌then◌else◌,
}
use stellarview_tui.Prelude.Int.{ℤ, pos, ltb_ℤ, leb_ℤ, eq_ℤ, ◌+ℤ◌}
use stellarview_tui.Prelude.Text.{trim_space, is_empty, ◌+s◌}
use stellarview_tui.Config.{Profile}
use stellarview_tui.Client.Transactions.{LedgerSummary, TransactionSummary, LiveFeedSummaryResponse}
use stellarview_tui.App.State.{
  text, int, nat, Fallible, failed, done, SourceMetadata, LiveFeedSnapshot, LiveFeedFilterSpec,
  LiveFeedStreamUpdate, Model,
}
use stellarview_tui.App.Sources.{
  message, status, status_info, status_error, profile_has_data_backend, active_backend_label,
  first_source_metadata, value_or_fallback_source_label, active_profile,
}
use stellarview_tui.App.Filter.{
  filter_all, filter_live_feed_transactions, normalize_live_feed_filter, format_live_feed_filter,
  next_live_feed_filter_class, parse_live_feed_filter_command,
}
use stellarview_tui.App.Feed.{merge_live_feed_transactions, apply_live_feed_view}

-- What the ledger of an update does.
unfoldable pub with_ledger : Option LedgerSummary → Model → Model
with_ledger none m = m
with_ledger (some ledger) m = record m {
  live_feed = record m.live_feed {
    latest_ledger = some ledger;
    last_ingested_ledger =
        if ltb m.live_feed.last_ingested_ledger ledger.sequence
        then ledger.sequence
        else m.live_feed.last_ingested_ledger;
  };
}

unfoldable pub received : ℕ → Model → Model
received zero m = m
received (suc n) m = record m {
  status = status status_info "Live stream received %d new transaction(s)." (nat (suc n) ∷ []);
}

-- What an update shows, once it is merged.
unfoldable pub show_update : ℕ → Model → Model
show_update added m =
    let shown =
      apply_live_feed_view added
        (record m { live_feed = record m.live_feed { available = true; error = "" } }) in
    received added (record shown { live_feed = record shown.live_feed { source_mode = "stream" } })

-- An update that is not held back.
unfoldable pub take_update : LiveFeedStreamUpdate → Model → ℕ × Model
take_update update m =
    let (added, merged) = merge_live_feed_transactions update.transactions m in
    let next = with_ledger update.ledger merged in
    (added, if ltb 0 added || is_some update.ledger then show_update added next else next)

-- `ApplyLiveFeedStreamUpdate`
unfoldable pub apply_live_feed_stream_update : LiveFeedStreamUpdate → Model → ℕ × Model
apply_live_feed_stream_update update m =
    if m.live_feed.paused
    then (0, record m { live_feed_pending_stream = m.live_feed_pending_stream ++ update ∷ [] })
    else take_update update m

unfoldable pub apply_all : List LiveFeedStreamUpdate → Model → Model
apply_all [] m = m
apply_all (update ∷ updates) m = apply_all updates (apply_live_feed_stream_update update m).1

-- `flushPendingLiveFeedStreamUpdates`
unfoldable pub flush_pending_live_feed_stream_updates : Model → Model
flush_pending_live_feed_stream_updates m =
    apply_all m.live_feed_pending_stream (record m { live_feed_pending_stream = [] })

-- `SetLiveFeedPaused`
unfoldable pub set_live_feed_paused : Bool → Model → Model
set_live_feed_paused true m = record m {
  live_feed = record m.live_feed { paused = true };
  status = status status_info "Live feed %s." (text "paused" ∷ []);
}
set_live_feed_paused false m =
    let running = record m {
      live_feed = record m.live_feed { paused = false; replay_offset = pos 0 };
    } in
    record (apply_live_feed_view 0 (flush_pending_live_feed_stream_updates running)) {
      status = status status_info "Live feed %s." (text "resumed" ∷ []);
    }

-- `SetLiveFeedSourceMode`
unfoldable pub set_live_feed_source_mode : String → Model → Model
set_live_feed_source_mode mode m =
    let m' = trim_space mode in
    let known = str_eq m' "poll" || str_eq m' "stream" || str_eq m' "degraded" in
    record m { live_feed = record m.live_feed { source_mode = if known then mode else "poll" } }

clamp_offset : ℤ → ℤ → ℤ
clamp_offset next last =
    let low = if ltb_ℤ next (pos 0) then pos 0 else next in if ltb_ℤ last low then last else low

-- `ShiftLiveFeedReplay`
unfoldable pub shift_live_feed_replay : ℤ → Model → Model
unfolding clamp_offset
shift_live_feed_replay delta m =
    let rows = filter_live_feed_transactions m.live_feed_all m.live_feed_filter_spec in
    let next = clamp_offset (m.live_feed.replay_offset +ℤ delta) (pos (length rows - 1)) in
    let shown =
      apply_live_feed_view 0
        (record m { live_feed = record m.live_feed { replay_offset = next } }) in
    if not m.live_feed.paused || eq_ℤ delta (pos 0) || eq_ℤ next m.live_feed.replay_offset
    then m
    else record shown {
      status =
          status status_info "Live feed replay offset: %d."
            (int shown.live_feed.replay_offset ∷ []);
    }

-- `setLiveFeedFilterSpec`
unfoldable pub set_live_feed_filter_spec : LiveFeedFilterSpec → Model → Model
set_live_feed_filter_spec spec m =
    let normal = record spec { class = normalize_live_feed_filter spec.class } in
    record (apply_live_feed_view 0 (record m {
      live_feed_filter_spec = normal;
      live_feed = record m.live_feed { replay_offset = pos 0 };
    })) {
      status =
          status status_info "Live feed filter: %s." (text (format_live_feed_filter normal) ∷ []);
    }

unfoldable pub set_parsed : Fallible LiveFeedFilterSpec → Model → Fallible (Unit {0}) × Model
set_parsed (failed e) m = (failed e, m)
set_parsed (done spec) m = (done tt, set_live_feed_filter_spec spec m)

-- `SetLiveFeedFilterCommand`
unfoldable pub set_live_feed_filter_command : List String → Model → Fallible (Unit {0}) × Model
set_live_feed_filter_command words m = set_parsed (parse_live_feed_filter_command words) m

-- `SetLiveFeedFilter`
unfoldable pub set_live_feed_filter : String → Model → Fallible (Unit {0}) × Model
set_live_feed_filter filter m = set_live_feed_filter_command ("filter" ∷ filter ∷ []) m

-- `CycleLiveFeedFilter`
unfoldable pub cycle_live_feed_filter : Model → Model
cycle_live_feed_filter m =
    let spec = m.live_feed_filter_spec in
    set_live_feed_filter_spec (record spec { class = next_live_feed_filter_class spec.class }) m

-- `RestoreLiveFeedScrollback`
unfoldable pub restore_live_feed_scrollback : List TransactionSummary → Model → Model
restore_live_feed_scrollback transactions m =
    let (added, merged) =
      merge_live_feed_transactions transactions (record m { live_feed_all = [] }) in
    let shown = apply_live_feed_view 0 merged in
    if ltb 0 (length shown.live_feed.recent_transactions)
    then record shown { live_feed = record shown.live_feed { available = true; state = "ready" } }
    else shown
