-- ===== src/App/Stream/Pause.antt =====
-- Pausing the live feed loses no update: those that arrive while it is paused are merged when it
-- is resumed, in the order in which they came.
use mathlib.Core.List.{append_assoc, append-nil}
use stellarview_tui.Prelude.{
  ℕ, zero, suc, ltb, ◌≡◌, refl, ◌∙◌, sym, ap, true, false, ◌||◌, Option, none, some, is_some,
  if-true, if-false, List, [], ◌∷◌, ◌++◌, if-either,
}
use stellarview_tui.Client.Transactions.{LedgerSummary, TransactionSummary}
use stellarview_tui.App.State.{LiveFeedStreamUpdate, Model}
use stellarview_tui.App.Feed.{merge_scrollback, merge_live_feed_transactions, apply_live_feed_view}
use stellarview_tui.App.Stream.{
  with_ledger, received, show_update, take_update, apply_live_feed_stream_update, apply_all,
  flush_pending_live_feed_stream_updates, set_live_feed_paused,
}

-- The scrollback after a list of updates, merged one after the other.
pub merge_all : List LiveFeedStreamUpdate → List TransactionSummary → List TransactionSummary
merge_all [] all = all
merge_all (update ∷ updates) all = merge_all updates (merge_scrollback update.transactions all)

queued :
    (update : LiveFeedStreamUpdate) (m : Model)
    → m.live_feed.paused ≡ true
    → (apply_live_feed_stream_update update m).1
      ≡ record m { live_feed_pending_stream = m.live_feed_pending_stream ++ update ∷ [] }
unfolding apply_live_feed_stream_update
queued update m h = ap (λ (r : ℕ × Model). r.1) (if-true m.live_feed.paused _ _ h)

apply_all-paused :
    (updates : List LiveFeedStreamUpdate) (m : Model)
    → m.live_feed.paused ≡ true
    → apply_all updates m
      ≡ record m { live_feed_pending_stream = m.live_feed_pending_stream ++ updates }
unfolding apply_all
apply_all-paused [] m h =
    ap (λ p. record m { live_feed_pending_stream = p })
      (sym (append-nil m.live_feed_pending_stream))
apply_all-paused (update ∷ updates) m h =
    ap (apply_all updates) (queued update m h)
    ∙ apply_all-paused updates
        (record m { live_feed_pending_stream = m.live_feed_pending_stream ++ update ∷ [] }) h
    ∙ ap (λ p. record m { live_feed_pending_stream = p })
        (append_assoc m.live_feed_pending_stream (update ∷ []) updates)

-- A model with a given scrollback, and paused and pending as before.
record Becomes (all : List TransactionSummary) (before after : Model) : Type 0 where
  scrollback : after.live_feed_all ≡ all
  paused : after.live_feed.paused ≡ before.live_feed.paused
  pending : after.live_feed_pending_stream ≡ before.live_feed_pending_stream

becomes : (m : Model) → Becomes m.live_feed_all m m
becomes m = record { scrollback = refl; paused = refl; pending = refl }

with_ledger-Becomes :
    (ledger : Option LedgerSummary) (all : List TransactionSummary) (before m : Model)
    → Becomes all before m
    → Becomes all before (with_ledger ledger m)
unfolding with_ledger
with_ledger-Becomes none all before m h = h
with_ledger-Becomes (some ledger) all before m h = record {
  scrollback = h.scrollback;
  paused = h.paused;
  pending = h.pending;
}

received-Becomes :
    (added : ℕ) (all : List TransactionSummary) (before m : Model)
    → Becomes all before m
    → Becomes all before (received added m)
unfolding received
received-Becomes zero all before m h = h
received-Becomes (suc n) all before m h = record {
  scrollback = h.scrollback;
  paused = h.paused;
  pending = h.pending;
}

show_update-Becomes :
    (added : ℕ) (all : List TransactionSummary) (before m : Model)
    → Becomes all before m
    → Becomes all before (show_update added m)
unfolding show_update apply_live_feed_view
show_update-Becomes added all before m h =
    received-Becomes added all before _
      (record { scrollback = h.scrollback; paused = h.paused; pending = h.pending })

-- What an update does to a model that is not paused.
take_update-Becomes :
    (update : LiveFeedStreamUpdate) (m : Model)
    → Becomes (merge_scrollback update.transactions m.live_feed_all) m (take_update update m).1
unfolding take_update merge_live_feed_transactions
take_update-Becomes update m =
    let all = merge_scrollback update.transactions m.live_feed_all in
    let (added, merged) = merge_live_feed_transactions update.transactions m in
    let kept =
      with_ledger-Becomes update.ledger all m merged
        (record { scrollback = refl; paused = refl; pending = refl }) in
    if-either (Becomes all m) (ltb 0 added || is_some update.ledger) _ _
      (show_update-Becomes added all m (with_ledger update.ledger merged) kept) kept

-- On a model that is not paused updates are merged one after the other.
apply_all-running :
    (updates : List LiveFeedStreamUpdate) (m : Model)
    → m.live_feed.paused ≡ false
    → Becomes (merge_all updates m.live_feed_all) m (apply_all updates m)
unfolding apply_all apply_live_feed_stream_update merge_all
apply_all-running [] m h = becomes m
apply_all-running (update ∷ updates) m h =
    let next = (take_update update m).1 in
    let one = take_update-Becomes update m in
    let rest = apply_all-running updates next (one.paused ∙ h) in
    let taken = ap (λ (r : ℕ × Model). apply_all updates r.1) (if-false m.live_feed.paused _ _ h) in
    record {
      scrollback =
          ap (λ (r : Model). r.live_feed_all) taken
          ∙ rest.scrollback
          ∙ ap (merge_all updates) one.scrollback;
      paused = ap (λ (r : Model). r.live_feed.paused) taken ∙ rest.paused ∙ one.paused;
      pending = ap (λ (r : Model). r.live_feed_pending_stream) taken ∙ rest.pending ∙ one.pending;
    }

-- Updates that arrive while the live feed is paused leave the scrollback alone. When it is
-- resumed, the scrollback is the one that merging all pending updates would have given, the
-- earliest first and those that were pending before in front, and none is pending any more.
pub set_live_feed_paused-apply_all :
    (updates : List LiveFeedStreamUpdate) (m : Model)
    → m.live_feed.paused ≡ true
    → let held = apply_all updates m in
      let resumed = set_live_feed_paused false held in
      (held.live_feed_all ≡ m.live_feed_all)
      × (resumed.live_feed_all ≡ merge_all (m.live_feed_pending_stream ++ updates) m.live_feed_all)
      × (resumed.live_feed_pending_stream ≡ [])
unfolding set_live_feed_paused flush_pending_live_feed_stream_updates apply_live_feed_view
set_live_feed_paused-apply_all updates m h =
    let same = apply_all-paused updates m h in
    let flushed = apply_all-running (m.live_feed_pending_stream ++ updates) _ refl in
    (
      ap (λ (r : Model). r.live_feed_all) same,
      ap (λ (r : Model). (set_live_feed_paused false r).live_feed_all) same ∙ flushed.scrollback,
      ap (λ (r : Model). (set_live_feed_paused false r).live_feed_pending_stream) same
          ∙ flushed.pending,
    )
