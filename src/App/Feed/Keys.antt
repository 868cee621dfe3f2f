-- ===== src/App/Feed/Keys.antt =====
-- What a merge keeps: every hash that was known or is new, up to the bound of the scrollback.
use stellarview_tui.Prelude.{
  ℕ, zero, suc, ◌≡◌, refl, sym, ap, ◌∙◌, subst, String, Bool, true, false, ◌||◌, ◌&&◌, not, inl,
  inr, List, [], ◌∷◌, ◌++◌, str_eq, eq_iff, take, drop, All, All-map, Bool-cases, arith,
}
use stellarview_tui.Prelude.Text.{is_empty}
use stellarview_tui.Prelude.Sort.{insert_by, sort_stable}
use stellarview_tui.Client.Transactions.{TransactionSummary}
use stellarview_tui.App.Feed.{
  newer, transaction_key, is_seen, keys_of, fresh, merged, merge_scrollback,
  default_live_feed_scrollback,
}

-- Some transaction has this key, which is not empty.
abbrev pub known : String → List TransactionSummary → Bool
known key txs = is_seen key (keys_of txs)

known-cons :
    (key : String) (tx : TransactionSummary) (txs : List TransactionSummary)
    → known key (tx ∷ txs)
      ≡ (not (is_empty (transaction_key tx)) && str_eq (transaction_key tx) key || known key txs)
unfolding is_seen keys_of
known-cons key tx txs = ground arith

known-append :
    (key : String) (xs ys : List TransactionSummary)
    → known key (xs ++ ys) ≡ (known key xs || known key ys)
known-append key [] ys = unfold is_seen in unfold keys_of in refl
known-append key (x ∷ xs) ys =
    rw (known-cons key x (xs ++ ys), known-cons key x xs, known-append key xs ys) (ground arith)

known-insert_by :
    (key : String) (x : TransactionSummary) (ys : List TransactionSummary)
    → known key (insert_by newer x ys) ≡ known key (x ∷ ys)
unfolding insert_by
known-insert_by key x [] = refl
known-insert_by key x (y ∷ ys) = elim (Bool-cases (newer y x)) [
  | inl e ↦
      rw
        (
          e,
          known-cons key y (insert_by newer x ys),
          known-insert_by key x ys,
          known-cons key x ys,
          known-cons key x (y ∷ ys),
          known-cons key y ys,
        )
        (ground arith)
  | inr e ↦ rw e
]

known-sort_stable :
    (key : String) (xs : List TransactionSummary) → known key (sort_stable newer xs) ≡ known key xs
unfolding sort_stable
known-sort_stable key [] = refl
known-sort_stable key (x ∷ xs) =
    known-insert_by key x (sort_stable newer xs)
    ∙ rw (known-cons key x (sort_stable newer xs), known-sort_stable key xs, known-cons key x xs)

seen_same :
    (j key : String) (seen : List String)
    → str_eq j key ≡ true
    → is_seen j seen ≡ true
    → is_seen key seen ≡ true
seen_same j key seen e h = subst (λ k. is_seen k seen ≡ true) ((eq_iff j key).0 e) h

is_seen-of_cons :
    (key k : String) (seen : List String)
    → is_seen key (k ∷ seen) ≡ (str_eq k key || is_seen key seen)
unfolding is_seen
is_seen-of_cons key k seen = refl

known-fresh :
    (key : String) (seen : List String) (txs : List TransactionSummary)
    → (known key (fresh seen txs) || is_seen key seen) ≡ (known key txs || is_seen key seen)
unfolding fresh
known-fresh key seen [] = refl
known-fresh key seen (tx ∷ txs) = elim (Bool-cases (is_empty (transaction_key tx))) [
  | inl none ↦ rw (none, known-cons key tx txs, known-fresh key seen txs, none)
  | inr some ↦ elim (Bool-cases (is_seen (transaction_key tx) seen)) [
    | inl old ↦
        rw (some, old, known-cons key tx txs, some, known-fresh key seen txs)
          (ground (arith, seen_same (transaction_key tx) key seen))
    | inr new ↦
        rw
          (
            some,
            new,
            known-cons key tx (fresh (transaction_key tx ∷ seen) txs),
            known-cons key tx txs,
            some,
          )
          (let rest =
              rw (is_seen-of_cons key (transaction_key tx) seen) at
                (known-fresh key (transaction_key tx ∷ seen) txs) in
            ground arith)
  ]
]

-- Before it is cut off, a merged scrollback holds exactly the hashes of the transactions that are
-- merged and of those that were there.
pub merged-keys :
    (key : String) (transactions all : List TransactionSummary)
    → known key (merged transactions all) ≡ (known key transactions || known key all)
unfolding merged
merged-keys key transactions all =
    known-sort_stable key (fresh (keys_of all) transactions ++ all)
    ∙ known-append key (fresh (keys_of all) transactions) all
    ∙ known-fresh key (keys_of all) transactions

fresh-known :
    (seen : List String) (txs : List TransactionSummary)
    → All
        (λ tx.
          (known (transaction_key tx) txs ≡ true) × (is_seen (transaction_key tx) seen ≡ false))
        (fresh seen txs)
unfolding fresh
fresh-known seen [] = tt
fresh-known seen (tx ∷ txs) =
    let IsNew : List String → List TransactionSummary → TransactionSummary → Type 0 =
      λ ks xs t. (known (transaction_key t) xs ≡ true) × (is_seen (transaction_key t) ks ≡ false) in
    let own = transaction_key tx in
    elim (Bool-cases (is_empty own || is_seen own seen)) [
      | inl skipped ↦ rw skipped (
          All-map (IsNew seen txs) (IsNew seen (tx ∷ txs)) _
            (λ t h. (rw (known-cons (transaction_key t) tx txs, h.0) (ground arith), h.1))
            (fresh-known seen txs))
      | inr new ↦
          let self = (eq_iff own own).1 refl in
          let named : is_empty own ≡ false = ground arith in
          rw new (
            (rw (known-cons own tx txs, named, self) refl, ground arith),
            All-map (IsNew (own ∷ seen) txs) (IsNew seen (tx ∷ txs)) _
                (λ t h. (
                  rw (known-cons (transaction_key t) tx txs, h.0) (ground arith),
                  let k = rw (is_seen-of_cons (transaction_key t) own seen) at h.1 in ground arith,
                ))
                (fresh-known (own ∷ seen) txs),
          )
    ]

take-drop : (n : ℕ) (xs : List TransactionSummary) → take n xs ++ drop n xs ≡ xs
take-drop zero xs = refl
take-drop (suc n) [] = refl
take-drop (suc n) (x ∷ xs) = ap (λ l. x ∷ l) (take-drop n xs)

-- A transaction that is new when the transactions of a merge are merged again right after it is one
-- whose hash is among those that the merge cut off.
pub merge_scrollback-again :
    (tx : TransactionSummary) (txs all : List TransactionSummary)
    → All
        (λ new.
          known (transaction_key new) (drop default_live_feed_scrollback (merged (tx ∷ txs) all))
          ≡ true)
        (fresh (keys_of (merge_scrollback (tx ∷ txs) all)) (tx ∷ txs))
unfolding merge_scrollback
merge_scrollback-again tx txs all =
    let n = default_live_feed_scrollback in
    let whole = merged (tx ∷ txs) all in
    All-map _ _ _
      (λ new h.
        let key = transaction_key new in
        let kept : known key (take n whole) ≡ false = h.1 in
        let there : known key whole ≡ true = rw (merged-keys key (tx ∷ txs) all, h.0) in
        let parts : known key whole ≡ (known key (take n whole) || known key (drop n whole)) =
          ap (λ xs. known key xs) (sym (take-drop n whole))
          ∙ known-append key (take n whole) (drop n whole) in
        ground arith)
      (fresh-known (keys_of (take n whole)) (tx ∷ txs))
