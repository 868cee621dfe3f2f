-- ===== src/App/Feed/Merge.antt =====
-- The scrollback stays short, sorted and without duplicates.
use stellarview_tui.Prelude.{
  ℕ, ◌≤◌, ◌≡◌, String, Bool, true, false, not, ◌||◌, inl, inr, List, [], ◌∷◌, ◌++◌, ◌==◌, ltb,
  str_eq, length, length-take, All, All-map, All-append, All-take, if◌then◌else◌, Bool-cases, arith,
}
use stellarview_tui.Prelude.Int.{ℤ, eq_ℤ, ltb_ℤ}
use stellarview_tui.Prelude.Text.{is_empty}
use stellarview_tui.Prelude.Order.{str_lt_asymm, str_lt_through, str_eq_sym}
use stellarview_tui.Prelude.Sort.{
  IsSorted, sort_stable-IsSorted, Pairwise, Pairwise-take, Pairwise-append, Pairwise-sort_stable,
  All-sort_stable,
}
use stellarview_tui.Client.Transactions.{TransactionSummary}
use stellarview_tui.App.Feed.{
  newer, transaction_key, is_seen, keys_of, fresh, merged, merge_scrollback,
  default_live_feed_scrollback,
}

pub newer_asymm : (a b : TransactionSummary) → newer a b ≡ true → newer b a ≡ false
unfolding newer
newer_asymm a b h = ground (arith, str_lt_asymm a.hash b.hash)

-- One level of the comparison, over the answers of the levels below it.
by_number :
    (x y z : ℕ) (p q r : Bool)
    → (p ≡ false → q ≡ false → r ≡ false)
    → (if not (y == x) then ltb x y else p) ≡ false
    → (if not (z == y) then ltb y z else q) ≡ false
    → (if not (z == x) then ltb x z else r) ≡ false
by_number x y z p q r f h k = ground arith

by_integer :
    (x y z : ℤ) (p q r : Bool)
    → (p ≡ false → q ≡ false → r ≡ false)
    → (if not (eq_ℤ y x) then ltb_ℤ x y else p) ≡ false
    → (if not (eq_ℤ z y) then ltb_ℤ y z else q) ≡ false
    → (if not (eq_ℤ z x) then ltb_ℤ x z else r) ≡ false
by_integer x y z p q r f h k = ground arith

pub newer_through :
    (a b c : TransactionSummary) → newer b a ≡ false → newer c b ≡ false → newer c a ≡ false
unfolding newer
newer_through a b c h k =
    by_number a.ledger_sequence b.ledger_sequence c.ledger_sequence _ _ _
      (by_integer a.created_at b.created_at c.created_at _ _ _ (
        by_integer a.application_order b.application_order c.application_order _ _ _
          (str_lt_through a.hash b.hash c.hash)))
      h k

-- After a merge that had something to merge, no transaction of the scrollback is newer than one
-- before it.
pub merge_scrollback-IsSorted :
    (transactions all : List TransactionSummary)
    → IsSorted newer all
    → IsSorted newer (merge_scrollback transactions all)
unfolding merge_scrollback merged
merge_scrollback-IsSorted [] all h = h
merge_scrollback-IsSorted (tx ∷ txs) all h =
    Pairwise-take _ default_live_feed_scrollback _
      (sort_stable-IsSorted newer newer_asymm newer_through (fresh (keys_of all) (tx ∷ txs) ++ all))

-- The scrollback never holds more than its bound of 100 transactions, if it did not before.
pub length-merge_scrollback :
    (transactions all : List TransactionSummary)
    → length all ≤ default_live_feed_scrollback
    → length (merge_scrollback transactions all) ≤ default_live_feed_scrollback
unfolding merge_scrollback
length-merge_scrollback [] all h = h
length-merge_scrollback (tx ∷ txs) all h =
    omega (arith, length-take default_live_feed_scrollback (merged (tx ∷ txs) all))

-- Two transactions of different keys.
abbrev pub Differ : TransactionSummary → TransactionSummary → Type 0
Differ a b = str_eq (transaction_key a) (transaction_key b) ≡ false

abbrev pub HasKey : TransactionSummary → Type 0
HasKey a = is_empty (transaction_key a) ≡ false

is_seen-cons :
    (key k : String) (seen : List String)
    → is_seen key (k ∷ seen) ≡ false
    → (str_eq k key ≡ false) × (is_seen key seen ≡ false)
unfolding is_seen
is_seen-cons key k seen h = ground arith

abbrev Unseen : List String → TransactionSummary → Type 0
Unseen seen tx = HasKey tx × (is_seen (transaction_key tx) seen ≡ false)

fresh-Unseen :
    (seen : List String) (txs : List TransactionSummary) → All (Unseen seen) (fresh seen txs)
unfolding fresh
fresh-Unseen seen [] = tt
fresh-Unseen seen (tx ∷ txs) =
    elim (Bool-cases (is_empty (transaction_key tx) || is_seen (transaction_key tx) seen)) [
      | inl skipped ↦ rw skipped (fresh-Unseen seen txs)
      | inr new ↦ rw new (
        (ground arith, ground arith),
        All-map (Unseen (transaction_key tx ∷ seen)) (Unseen seen) _
            (λ x h. (h.0, (is_seen-cons _ _ seen h.1).1))
            (fresh-Unseen (transaction_key tx ∷ seen) txs),
      )
    ]

fresh-Differ :
    (seen : List String) (txs : List TransactionSummary) → Pairwise Differ (fresh seen txs)
unfolding fresh
fresh-Differ seen [] = tt
fresh-Differ seen (tx ∷ txs) =
    elim (Bool-cases (is_empty (transaction_key tx) || is_seen (transaction_key tx) seen)) [
      | inl skipped ↦ rw skipped (fresh-Differ seen txs)
      | inr new ↦ rw new (
        All-map (Unseen (transaction_key tx ∷ seen)) (Differ tx) _
            (λ x h. (is_seen-cons _ _ seen h.1).0) (fresh-Unseen (transaction_key tx ∷ seen) txs),
        fresh-Differ (transaction_key tx ∷ seen) txs,
      )
    ]

Unseen-Differ :
    (tx : TransactionSummary) (all : List TransactionSummary)
    → All HasKey all
    → is_seen (transaction_key tx) (keys_of all) ≡ false
    → All (Differ tx) all
unfolding keys_of
Unseen-Differ tx [] h k = tt
Unseen-Differ tx (x ∷ all) h k =
    let (first, rest) =
      is_seen-cons (transaction_key tx) (transaction_key x) (keys_of all) (rw h.0 at k) in
    (str_eq_sym _ _ first, Unseen-Differ tx all h.1 rest)

-- A scrollback in which every transaction has a key and no two share one.
abbrev pub IsDistinct : List TransactionSummary → Type 0
IsDistinct xs = All HasKey xs × Pairwise Differ xs

merged-IsDistinct :
    (transactions all : List TransactionSummary)
    → IsDistinct all
    → IsDistinct (merged transactions all)
unfolding merged
merged-IsDistinct transactions all h =
    let new = fresh-Unseen (keys_of all) transactions in
    let added = fresh (keys_of all) transactions in
    (
      All-sort_stable newer HasKey (added ++ all) (
          All-append HasKey added all (All-map (Unseen (keys_of all)) HasKey added (λ x p. p.0) new)
            h.0),
      Pairwise-sort_stable newer Differ (λ x y. str_eq_sym _ _) (added ++ all)
          (Pairwise-append Differ added all (fresh-Differ (keys_of all) transactions) h.1
            (All-map (Unseen (keys_of all)) _ added (λ x p. Unseen-Differ x all h.0 p.1) new)),
    )

-- A merge keeps the scrollback free of duplicates: if every transaction had a hash (but for
-- spaces) and no two the same one, then so it is afterwards, whatever is merged.
pub merge_scrollback-IsDistinct :
    (transactions all : List TransactionSummary)
    → IsDistinct all
    → IsDistinct (merge_scrollback transactions all)
unfolding merge_scrollback
merge_scrollback-IsDistinct [] all h = h
merge_scrollback-IsDistinct (tx ∷ txs) all h =
    let (keyed, distinct) = merged-IsDistinct (tx ∷ txs) all h in
    (
      All-take HasKey default_live_feed_scrollback _ keyed,
      Pairwise-take Differ default_live_feed_scrollback _ distinct,
    )
