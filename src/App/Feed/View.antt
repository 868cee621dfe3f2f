-- ===== src/App/Feed/View.antt =====
-- What the view of the live feed shows.
use stellarview_tui.Prelude.{
  ℕ, suc, ◌+◌, ◌-◌, leb, ◌≤◌, ◌<◌, ◌≡◌, refl, String, Bool, true, ◌&&◌, inl, inr, some, List, [],
  ◌∷◌, str_eq, length, All, All-drop, Bool-cases, Option-cases, if◌then◌else◌, arith,
}
use stellarview_tui.Prelude.Int.{ℤ, pos, ltb_ℤ, pos_part, ◌-ℤ◌}
use stellarview_tui.Prelude.Text.{is_empty}
use stellarview_tui.Client.Transactions.{TransactionSummary}
use stellarview_tui.App.State.{LiveFeedFilterSpec, Model}
use stellarview_tui.App.Sources.{clamp_index}
use stellarview_tui.App.Filter.{matches_live_feed_filter, filter_live_feed_transactions}
use stellarview_tui.App.Feed.{
  transaction_key, find_key, replay_view, selected_index, apply_live_feed_view,
}

-- The index of a row, or zero where there are none.
abbrev pub InRange : ℤ → List TransactionSummary → Type 0
InRange index rows = (n : ℕ) × (index ≡ pos n) × (n ≤ length rows - 1)

unfoldable pub clamped : ℤ → ℕ → ℕ
clamped value n = if leb n (pos_part value) then n - 1 else pos_part value

pub clamp_index-pos : (value : ℤ) (n : ℕ) → clamp_index value (pos n) ≡ pos (clamped value n)
unfolding clamp_index clamped ◌-ℤ◌
clamp_index-pos value n = ground arith

pub clamped-le : (value : ℤ) (n : ℕ) → clamped value n ≤ n - 1
unfolding clamped
clamped-le value n = ground arith

pub clamp_index-InRange :
    (value : ℤ) (rows : List TransactionSummary)
    → InRange (clamp_index value (pos (length rows))) rows
clamp_index-InRange value rows = (
  clamped value (length rows),
  clamp_index-pos value (length rows),
  clamped-le value (length rows),
)

pub find_key-lt :
    (same : String → String → Bool) (key : String) (rows : List TransactionSummary) (i j : ℕ)
    → find_key same key rows i ≡ some j
    → j < i + length rows
unfolding find_key
find_key-lt same key [] i j h = cc
find_key-lt same key (row ∷ rows) i j h = elim (Bool-cases (same (transaction_key row) key)) [
  | inl here ↦ let e : some i ≡ some j = rw here at h in ground arith
  | inr later ↦ omega (arith, find_key-lt same key rows (suc i) j (rw later at h))
]

selected_index-InRange :
    (key : String) (index : ℤ) (rows : List TransactionSummary)
    → InRange (selected_index key index rows) rows
unfolding selected_index
selected_index-InRange key index rows = elim (Bool-cases (is_empty key)) [
  | inl nothing ↦ rw nothing (clamp_index-InRange index rows)
  | inr something ↦ elim (Option-cases (find_key str_eq key rows 0)) [
    | inl lost ↦ rw (something, lost) (clamp_index-InRange index rows)
    | inr (i, found) ↦
        rw (something, found) (i, refl, omega (arith, find_key-lt str_eq key rows 0 i found))
  ]
]

-- After the view is brought up to date the selection is on a row of the view, or on zero when the
-- view has no rows.
pub apply_live_feed_view-InRange :
    (added : ℕ) (m : Model)
    → InRange
        (apply_live_feed_view added m).selection.live_feed_index
        (apply_live_feed_view added m).live_feed.recent_transactions
unfolding apply_live_feed_view
apply_live_feed_view-InRange added m = selected_index-InRange _ m.selection.live_feed_index _

filter-All :
    (txs : List TransactionSummary) (spec : LiveFeedFilterSpec)
    → All (λ tx. matches_live_feed_filter tx spec ≡ true) (filter_live_feed_transactions txs spec)
unfolding filter_live_feed_transactions
filter-All [] spec = tt
filter-All (tx ∷ txs) spec = elim (Bool-cases (matches_live_feed_filter tx spec)) [
  | inl match ↦ rw match (match, filter-All txs spec)
  | inr skip ↦ rw skip (filter-All txs spec)
]

replay_view-All :
    (P : TransactionSummary → Type 0) (paused : Bool) (offset : ℤ) (rows : List TransactionSummary)
    → All P rows
    → All P (replay_view paused offset rows).0
unfolding replay_view
replay_view-All P paused offset rows h = elim (Bool-cases (paused && ltb_ℤ (pos 0) offset)) [
  | inl replay ↦ rw replay (All-drop P _ rows h)
  | inr live ↦ rw live h
]

-- The view shows only transactions that the filter lets through, paused and replayed or not.
pub apply_live_feed_view-matches :
    (added : ℕ) (m : Model)
    → All
        (λ tx. matches_live_feed_filter tx m.live_feed_filter_spec ≡ true)
        (apply_live_feed_view added m).live_feed.recent_transactions
unfolding apply_live_feed_view
apply_live_feed_view-matches added m =
    replay_view-All _ m.live_feed.paused m.live_feed.replay_offset _
      (filter-All m.live_feed_all m.live_feed_filter_spec)
