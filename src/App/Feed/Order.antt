-- ===== src/App/Feed/Order.antt =====
-- The order of the scrollback, told by the fields of its transactions: `mergeLiveFeedTransactions`
-- of tui/internal/app/model.go.
use stellarview_tui.Prelude.{
  ℕ, zero, suc, ◌<◌, ◌≡◌, true, false, ◌⊎◌, inl, inr, List, [], ◌∷◌, ◌++◌, ◌==◌, take, drop, All,
  All-map, All-drop, Bool-cases, arith,
}
use stellarview_tui.Prelude.Int.{eq_ℤ, ltb_ℤ}
use stellarview_tui.Prelude.Text.{str_lt}
use stellarview_tui.Prelude.Sort.{Pairwise, Pairwise-take, IsSorted, sort_stable-IsSorted}
use stellarview_tui.Client.Transactions.{TransactionSummary}
use stellarview_tui.App.Feed.{
  newer, keys_of, fresh, merged, merge_scrollback, default_live_feed_scrollback,
}
use stellarview_tui.App.Feed.Merge.{newer_asymm, newer_through}

-- The first transaction is of a later ledger; or of the same one and created later; or created at
-- the same time and applied later; or equal in this too, with a hash that is not the greater one.
abbrev pub Precedes : TransactionSummary → TransactionSummary → Type 0
Precedes a b =
    (b.ledger_sequence < a.ledger_sequence)
    ⊎ ((b.ledger_sequence ≡ a.ledger_sequence)
        × ((ltb_ℤ b.created_at a.created_at ≡ true)
            ⊎ ((b.created_at ≡ a.created_at)
                × ((ltb_ℤ b.application_order a.application_order ≡ true)
                    ⊎ ((b.application_order ≡ a.application_order)
                        × (str_lt b.hash a.hash ≡ false))))))

not_newer-Precedes : (a b : TransactionSummary) → newer b a ≡ false → Precedes a b
unfolding newer
not_newer-Precedes a b h = elim (Bool-cases (b.ledger_sequence == a.ledger_sequence)) [
  | inr apart ↦ inl (ground arith)
  | inl same ↦ inr (
    ground arith,
    elim (Bool-cases (eq_ℤ b.created_at a.created_at)) [
      | inr apart' ↦ inl (ground arith)
      | inl same' ↦ inr (
        ground arith,
        elim (Bool-cases (eq_ℤ b.application_order a.application_order)) [
          | inr apart'' ↦ inl (ground arith)
          | inl same'' ↦ inr (ground arith, ground arith)
        ],
      )
    ],
  )
]

Pairwise-Precedes : (xs : List TransactionSummary) → IsSorted newer xs → Pairwise Precedes xs
Pairwise-Precedes [] h = tt
Pairwise-Precedes (x ∷ xs) h =
    (All-map _ (Precedes x) xs (λ y k. not_newer-Precedes x y k) h.0, Pairwise-Precedes xs h.1)

Pairwise-cross :
    (R : TransactionSummary → TransactionSummary → Type 0) (n : ℕ) (xs : List TransactionSummary)
    → Pairwise R xs
    → All (λ x. All (R x) (drop n xs)) (take n xs)
Pairwise-cross R zero xs h = tt
Pairwise-cross R (suc n) [] h = tt
Pairwise-cross R (suc n) (x ∷ xs) h = (All-drop (R x) n xs h.0, Pairwise-cross R n xs h.1)

-- After a merge that had something to merge, the scrollback is in order: the latest ledgers come
-- first, in a ledger what was created later, then what was applied later, then the smaller hash.
-- And nothing that stays is behind anything that was cut off, in this order.
pub merge_scrollback-newest :
    (tx : TransactionSummary) (txs all : List TransactionSummary)
    → Pairwise Precedes (merge_scrollback (tx ∷ txs) all)
      × All
          (λ kept. All (Precedes kept) (drop default_live_feed_scrollback (merged (tx ∷ txs) all)))
          (merge_scrollback (tx ∷ txs) all)
unfolding merge_scrollback merged
merge_scrollback-newest tx txs all =
    let n = default_live_feed_scrollback in
    let sorted = Pairwise-Precedes _ (
      sort_stable-IsSorted newer newer_asymm newer_through
        (fresh (keys_of all) (tx ∷ txs) ++ all)) in
    (Pairwise-take Precedes n _ sorted, Pairwise-cross Precedes n _ sorted)
