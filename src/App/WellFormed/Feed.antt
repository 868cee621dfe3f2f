-- ===== src/App/WellFormed/Feed.antt =====
-- The operations of the live feed keep the model well formed.
use stellarview_tui.Prelude.{
  ℕ, zero, suc, ltb, String, Bool, true, false, ◌||◌, Option, none, some, is_some, List, [], ◌∷◌,
  if-either, arith,
}
use stellarview_tui.Prelude.Int.{ℤ}
use stellarview_tui.Client.Transactions.{LedgerSummary, TransactionSummary, LiveFeedSummaryResponse}
use stellarview_tui.App.State.{
  Fallible, failed, done, SourceMetadata, LiveFeedFilterSpec, LiveFeedStreamUpdate, Model,
}
use stellarview_tui.App.Filter.{parse_live_feed_filter_command}
use stellarview_tui.App.Feed.{merge_scrollback, merge_live_feed_transactions, apply_live_feed_view}
use stellarview_tui.App.Feed.Merge.{
  merge_scrollback-IsSorted, length-merge_scrollback, merge_scrollback-IsDistinct,
}
use stellarview_tui.App.Stream.{
  with_ledger, received, show_update, set_parsed, take_update, apply_live_feed_stream_update,
  apply_all, flush_pending_live_feed_stream_updates, set_live_feed_paused,
  set_live_feed_source_mode, shift_live_feed_replay, set_live_feed_filter_spec,
  set_live_feed_filter_command, set_live_feed_filter, cycle_live_feed_filter,
  restore_live_feed_scrollback,
}
use stellarview_tui.App.Refresh.{
  Reply, no_service, refused, answered, broken, polled, synced, answer_refresh, no_backend,
  refresh_live_feed,
}
use stellarview_tui.App.WellFormed.{FeedOk, WellFormed, with_feed}

merge_scrollback-FeedOk :
    (transactions all : List TransactionSummary)
    → FeedOk all
    → FeedOk (merge_scrollback transactions all)
merge_scrollback-FeedOk transactions all h = record {
  short = length-merge_scrollback transactions all h.short;
  sorted = merge_scrollback-IsSorted transactions all h.sorted;
  distinct = merge_scrollback-IsDistinct transactions all h.distinct;
}

merge-WellFormed :
    (transactions : List TransactionSummary) (m : Model)
    → WellFormed m
    → WellFormed (merge_live_feed_transactions transactions m).1
unfolding merge_live_feed_transactions
merge-WellFormed transactions m h =
    with_feed (merge_scrollback-FeedOk transactions m.live_feed_all h.feed) h

pub view-WellFormed :
    (added : ℕ) (m : Model) → WellFormed m → WellFormed (apply_live_feed_view added m)
unfolding apply_live_feed_view
view-WellFormed added m h = h

with_ledger-WellFormed :
    (ledger : Option LedgerSummary) (m : Model) → WellFormed m → WellFormed (with_ledger ledger m)
unfolding with_ledger
with_ledger-WellFormed none m h = h
with_ledger-WellFormed (some ledger) m h = h

received-WellFormed : (added : ℕ) (m : Model) → WellFormed m → WellFormed (received added m)
unfolding received
received-WellFormed zero m h = h
received-WellFormed (suc n) m h = h

show_update-WellFormed : (added : ℕ) (m : Model) → WellFormed m → WellFormed (show_update added m)
unfolding show_update apply_live_feed_view
show_update-WellFormed added m h = received-WellFormed added _ h

take_update-WellFormed :
    (update : LiveFeedStreamUpdate) (m : Model) → WellFormed m → WellFormed (take_update update m).1
unfolding take_update
take_update-WellFormed update m h =
    let (added, merged) = merge_live_feed_transactions update.transactions m in
    let next =
      with_ledger-WellFormed update.ledger merged (merge-WellFormed update.transactions m h) in
    if-either WellFormed (ltb 0 added || is_some update.ledger) _ _
      (show_update-WellFormed added _ next) next

pub apply_live_feed_stream_update-WellFormed :
    (update : LiveFeedStreamUpdate) (m : Model)
    → WellFormed m
    → WellFormed (apply_live_feed_stream_update update m).1
unfolding apply_live_feed_stream_update
apply_live_feed_stream_update-WellFormed update m h =
    if-either (λ (r : ℕ × Model). WellFormed r.1) m.live_feed.paused _ _ h
      (take_update-WellFormed update m h)

apply_all-WellFormed :
    (updates : List LiveFeedStreamUpdate) (m : Model)
    → WellFormed m
    → WellFormed (apply_all updates m)
unfolding apply_all
apply_all-WellFormed [] m h = h
apply_all-WellFormed (update ∷ updates) m h =
    apply_all-WellFormed updates _ (apply_live_feed_stream_update-WellFormed update m h)

pub set_live_feed_paused-WellFormed :
    (paused : Bool) (m : Model) → WellFormed m → WellFormed (set_live_feed_paused paused m)
unfolding set_live_feed_paused flush_pending_live_feed_stream_updates
set_live_feed_paused-WellFormed true m h = h
set_live_feed_paused-WellFormed false m h =
    view-WellFormed 0 _ (apply_all-WellFormed m.live_feed_pending_stream _ h)

pub set_live_feed_source_mode-WellFormed :
    (mode : String) (m : Model) → WellFormed m → WellFormed (set_live_feed_source_mode mode m)
unfolding set_live_feed_source_mode
set_live_feed_source_mode-WellFormed mode m h = h

pub shift_live_feed_replay-WellFormed :
    (delta : ℤ) (m : Model) → WellFormed m → WellFormed (shift_live_feed_replay delta m)
unfolding shift_live_feed_replay apply_live_feed_view
shift_live_feed_replay-WellFormed delta m h = if-either WellFormed _ m _ h h

set_live_feed_filter_spec-WellFormed :
    (spec : LiveFeedFilterSpec) (m : Model)
    → WellFormed m
    → WellFormed (set_live_feed_filter_spec spec m)
unfolding set_live_feed_filter_spec
set_live_feed_filter_spec-WellFormed spec m h = view-WellFormed 0 _ h

set_parsed-WellFormed :
    (spec : Fallible LiveFeedFilterSpec) (m : Model)
    → WellFormed m
    → WellFormed (set_parsed spec m).1
unfolding set_parsed
set_parsed-WellFormed (failed e) m h = h
set_parsed-WellFormed (done spec) m h = set_live_feed_filter_spec-WellFormed spec m h

pub set_live_feed_filter_command-WellFormed :
    (words : List String) (m : Model)
    → WellFormed m
    → WellFormed (set_live_feed_filter_command words m).1
unfolding set_live_feed_filter_command
set_live_feed_filter_command-WellFormed words m h =
    set_parsed-WellFormed (parse_live_feed_filter_command words) m h

pub set_live_feed_filter-WellFormed :
    (filter : String) (m : Model) → WellFormed m → WellFormed (set_live_feed_filter filter m).1
unfolding set_live_feed_filter
set_live_feed_filter-WellFormed filter m h =
    set_live_feed_filter_command-WellFormed ("filter" ∷ filter ∷ []) m h

pub cycle_live_feed_filter-WellFormed :
    (m : Model) → WellFormed m → WellFormed (cycle_live_feed_filter m)
unfolding cycle_live_feed_filter
cycle_live_feed_filter-WellFormed m h = set_live_feed_filter_spec-WellFormed _ m h

pub restore_live_feed_scrollback-WellFormed :
    (transactions : List TransactionSummary) (m : Model)
    → WellFormed m
    → WellFormed (restore_live_feed_scrollback transactions m)
unfolding restore_live_feed_scrollback apply_live_feed_view
restore_live_feed_scrollback-WellFormed transactions m h =
    let cleared : FeedOk [] = record { short = omega arith; sorted = tt; distinct = (tt, tt) } in
    let merged =
      merge-WellFormed transactions (record m { live_feed_all = [] }) (with_feed cleared h) in
    if-either WellFormed _ _ _ merged merged

broken-WellFormed :
    (error reason : String) (m : Model) → WellFormed m → WellFormed (broken error reason m)
unfolding broken
broken-WellFormed error reason m h = h

synced-WellFormed :
    (merges : Bool) (summary : LiveFeedSummaryResponse) (m : Model)
    → WellFormed m
    → WellFormed (synced merges summary m)
unfolding synced polled apply_live_feed_view
synced-WellFormed merges summary m h =
    if-either (λ (r : ℕ × Model). WellFormed r.1) merges _ _
      (merge-WellFormed summary.recent_transactions _ h) h

answer_refresh-WellFormed :
    (merges : Bool) (reply : Reply) (m : Model)
    → WellFormed m
    → WellFormed (answer_refresh merges reply m).1
unfolding answer_refresh broken
answer_refresh-WellFormed merges no_service m h = h
answer_refresh-WellFormed merges (refused error) m h = h
answer_refresh-WellFormed merges (answered summary) m h = synced-WellFormed merges summary m h

pub refresh_live_feed-WellFormed :
    (reply : Reply) (merges : Bool) (source : List SourceMetadata) (m : Model)
    → WellFormed m
    → WellFormed (refresh_live_feed reply merges source m).1
unfolding refresh_live_feed
refresh_live_feed-WellFormed reply merges source m h =
    if-either (λ (r : Fallible (Unit {0}) × Model). WellFormed r.1) _ _ _
      (answer_refresh-WellFormed merges reply _ h) (broken-WellFormed no_backend no_backend _ h)
