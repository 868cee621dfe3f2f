-- ===== src/App/Refresh.antt =====
-- Polling the backend for the live feed: `refreshLiveFeed` of tui/internal/app/model.go. The
-- backend's answer is an argument.
use stellarview_tui.Prelude.{
  ℕ, String, Bool, true, false, Option, none, some, List, [], ◌∷◌, str_eq, if◌then◌else◌,
}
use stellarview_tui.Prelude.Text.{is_empty}
use stellarview_tui.Client.Transactions.{LedgerSummary, LiveFeedSummaryResponse}
use stellarview_tui.App.State.{Status, text, nat, Fallible, failed, done, SourceMetadata, Model}
use stellarview_tui.App.Sources.{
  message, status, status_info, status_error, profile_has_data_backend, active_backend_label,
  first_source_metadata, value_or_fallback_source_label, active_profile,
}
use stellarview_tui.App.Feed.{merge_live_feed_transactions, apply_live_feed_view}

-- What the backend answers a refresh.
pub data Reply : Type 0 where
  no_service : Reply
  refused : String → Reply
  answered : LiveFeedSummaryResponse → Reply

-- The live feed after a failure: no rows are shown, and the scrollback stays.
unfoldable pub broken : String → String → Model → Model
broken error reason m = record m {
  live_feed = record m.live_feed {
    available = false;
    state = "error";
    error = error;
    latest_ledger = none;
    recent_transactions = [];
    source = record m.live_feed.source { degraded = true; degraded_reason = reason };
  };
}

synced_status : Bool → ℕ → Option LedgerSummary → String → Status
synced_status merges added none backend_url =
    status status_info "Live feed synced from %s." (text backend_url ∷ [])
synced_status merges added (some ledger) backend_url =
    if merges
    then status status_info "Live feed synced at ledger %d with %d new item(s)."
        (nat ledger.sequence ∷ nat added ∷ [])
    else status status_info "Live feed metadata synced at ledger %d." (nat ledger.sequence ∷ [])

unfoldable pub polled : LiveFeedSummaryResponse → Model → ℕ × Model
polled summary m =
    let (added, merged) = merge_live_feed_transactions summary.recent_transactions m in
    let shown = apply_live_feed_view added merged in
    let mode = if str_eq shown.live_feed.source_mode "stream" then "stream" else "poll" in
    (added, record shown { live_feed = record shown.live_feed { source_mode = mode } })

unfoldable pub synced : Bool → LiveFeedSummaryResponse → Model → Model
unfolding synced_status
synced merges summary m =
    let base = record m {
      live_feed = record m.live_feed {
        available = true;
        error = "";
        last_ingested_ledger = summary.last_ingested_ledger;
        latest_ledger = summary.latest_ledger;
      };
    } in
    let (added, next) = if merges then polled summary base else (0, base) in
    record next {
      status = synced_status merges added summary.latest_ledger next.live_feed.backend_url;
    }

unfoldable pub answer_refresh : Bool → Reply → Model → Fallible (Unit {0}) × Model
answer_refresh merges no_service m = (
  failed (message "backend client is unavailable" []),
  broken "backend client is unavailable" "backend client is unavailable" m,
)
answer_refresh merges (refused error) m =
    let reason =
      if is_empty m.live_feed.source.degraded_reason
      then error
      else m.live_feed.source.degraded_reason in
    let after = broken error reason m in
    (
      failed (message "%s" (text error ∷ [])),
      record after {
        status = status status_error "Live feed unavailable from %s: %v" (
            text (value_or_fallback_source_label after.live_feed.source after.live_feed.backend_url)
            ∷ text error
            ∷ []);
      },
    )
answer_refresh merges (answered summary) m = (done tt, synced merges summary m)

abbrev pub no_backend : String
no_backend = "no indexer_url or rpc_endpoint is configured for the current profile"

-- `refreshLiveFeed`
unfoldable pub refresh_live_feed :
    Reply → Bool → List SourceMetadata → Model → Fallible (Unit {0}) × Model
refresh_live_feed reply merges source m =
    let p = active_profile m in
    let configured = profile_has_data_backend p in
    let base = record m {
      live_feed = record m.live_feed {
        configured = configured;
        backend_url = active_backend_label p;
        source = first_source_metadata source p "live-feed";
      };
    } in
    if configured
    then answer_refresh merges reply base
    else (failed (message "no backend is configured" []), broken no_backend no_backend base)
