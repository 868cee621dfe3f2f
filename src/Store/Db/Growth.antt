-- ===== src/Store/Db/Growth.antt =====
-- How the tables grow: a ledger that was inserted is found again, and nothing that was found is
-- lost.
use stellarview_tui.Prelude.{
  ℕ, ◌≤◌, ◌<◌, ◌+◌, ◌≡◌, refl, zero, suc, true, ◌||◌, inl, inr, List, [], ◌∷◌, ◌++◌, ◌==◌, All,
  count_from, Bool-cases, arith,
}
use stellarview_tui.Prelude.Int.{ℤ}
use stellarview_tui.Store.Rows.{Ledger}
use stellarview_tui.Store.Db.{
  Db, has_ledger, has_sequence, insert_ledger, get_last_ingested_ledger, set_last_ingested_ledger,
}

-- The table of ledgers has a row with this sequence.
abbrev pub Has : ℕ → Db → Type 0
Has n db = has_sequence n db.ledgers ≡ true

abbrev pub Extends : Db → Db → Type 0
Extends before after = (n : ℕ) → Has n before → Has n after

has_sequence-append :
    (n : ℕ) (xs ys : List Ledger)
    → has_sequence n (xs ++ ys) ≡ (has_sequence n xs || has_sequence n ys)
unfolding has_sequence
has_sequence-append n [] ys = refl
has_sequence-append n (x ∷ xs) ys = ground (arith, has_sequence-append n xs ys)

has_sequence-has_ledger :
    (n : ℕ) (t : ℤ) (xs : List Ledger) → has_ledger n t xs ≡ true → has_sequence n xs ≡ true
unfolding has_sequence has_ledger
has_sequence-has_ledger n t [] h = cc
has_sequence-has_ledger n t (x ∷ xs) h = ground (arith, has_sequence-has_ledger n t xs)

pub insert_ledger-Has : (l : Ledger) (db : Db) → Has l.sequence (insert_ledger l db)
unfolding insert_ledger
insert_ledger-Has l db = elim (Bool-cases (has_ledger l.sequence l.closed_at db.ledgers)) [
  | inl old ↦ rw old (has_sequence-has_ledger l.sequence l.closed_at db.ledgers old)
  | inr new ↦
      rw (new, has_sequence-append l.sequence db.ledgers (l ∷ []))
        (unfold has_sequence in ground arith)
]

pub insert_ledger-Extends : (l : Ledger) (db : Db) → Extends db (insert_ledger l db)
unfolding insert_ledger
insert_ledger-Extends l db n h = elim (Bool-cases (has_ledger l.sequence l.closed_at db.ledgers)) [
  | inl old ↦ rw old h
  | inr new ↦ rw (new, has_sequence-append n db.ledgers (l ∷ []), h)
]

-- The cursor after an update is the larger of the old and the new one.
pub set_last_ingested_ledger-max :
    (seq : ℕ) (db : Db)
    → (get_last_ingested_ledger db ≤ get_last_ingested_ledger (set_last_ingested_ledger seq db))
      × (seq ≤ get_last_ingested_ledger (set_last_ingested_ledger seq db))
unfolding set_last_ingested_ledger get_last_ingested_ledger
set_last_ingested_ledger-max seq db = ground arith

pub All-count_from {κ} :
    (P : ℕ → Type κ) (a k n : ℕ) → All P (count_from a k) → a ≤ n → n < a + k → P n
All-count_from P a zero n h le lt = absurd (omega arith)
All-count_from P a (suc k) n h le lt = elim (Bool-cases (n == a)) [
  | inl here ↦ let e : n ≡ a = ground arith in rw e h.0
  | inr later ↦ All-count_from P (a + 1) k n h.1 (ground arith) (omega arith)
]
