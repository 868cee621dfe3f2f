-- ===== src/Pipeline/Batches/Expand.antt =====
-- The batches of gap filling ask for exactly the missing ledgers, within the size limit.
use stellarview_tui.Prelude.{
  ℕ, zero, suc, ◌+◌, ◌≤◌, ◌<◌, ◌≡◌, ◌++◌, inl, inr, refl, ◌∙◌, ap, true, false, ◌&&◌, List, [], ◌∷◌,
  ◌==◌, if◌then◌else◌, length, arith, All, Bool-cases,
}
use stellarview_tui.Prelude.Int.{ℤ, pos, negsuc, pos_part, ltb_ℤ, leb_ℤ}
use stellarview_tui.Prelude.Words.{u32}
use stellarview_tui.Pipeline.Batches.{LedgerBatch, batches_from, contiguous_ledger_batches}
use native.Mathlib.Numerals.{add-one}
use mathlib.Core.List.{append_assoc}

-- The ledgers that a batch asks for: `count` of them from `start`, as uint32 numbers.
abbrev pub sequences_from : ℕ → ℕ → List ℕ
sequences_from start zero = []
sequences_from start (suc n) = start ∷ sequences_from (u32 (start + 1)) n

abbrev pub expand : List LedgerBatch → List ℕ
expand [] = []
expand (b ∷ bs) = sequences_from b.start b.count ++ expand bs

sequences_from-snoc :
    (start n : ℕ)
    → start < 4294967296
    → sequences_from start (suc n) ≡ sequences_from start n ++ u32 (start + n) ∷ []
sequences_from-snoc start zero h = let same : u32 (start + 0) ≡ start = omega arith in rw same
sequences_from-snoc start (suc n) h =
    let shift : u32 (u32 (start + 1) + n) ≡ u32 (start + suc n) = omega arith in
    ap (λ l. start ∷ l) (sequences_from-snoc (u32 (start + 1)) n (omega arith) ∙ rw shift)

abbrev IsWord : ℕ → Type 0
IsWord n = n < 4294967296

batches_from-expand :
    (m : ℤ) (start previous k : ℕ) (rest : List ℕ)
    → start < 4294967296
    → previous ≡ u32 (start + k)
    → All IsWord rest
    → expand (batches_from m start previous (suc k) rest) ≡ sequences_from start (suc k) ++ rest
unfolding batches_from
batches_from-expand m start previous k [] h e w = refl
batches_from-expand m start previous k (s ∷ rest) h e w =
    elim (Bool-cases (s == u32 (previous + 1) && ltb_ℤ (pos (suc k)) m)) [
      | inl joined ↦
          let next : s ≡ u32 (start + suc k) = ground arith in
          rw (joined, add-one)
            (batches_from-expand m start s (suc k) rest h next w.1
              ∙ ap (λ l. l ++ rest) (sequences_from-snoc start (suc k) h)
              ∙ rw (← next) (append_assoc (sequences_from start (suc k)) (s ∷ []) rest))
      | inr flushed ↦ rw flushed (
          ap (λ l. sequences_from start (suc k) ++ l)
            (batches_from-expand m s s 0 rest w.0 (omega arith) w.1))
    ]

-- For uint32 sequences, in any order, the batches of `contiguous_ledger_batches` ask for exactly
-- these ledgers in their order, whatever the limit is.
pub contiguous_ledger_batches-expand :
    (sequences : List ℕ) (max_count : ℤ)
    → All IsWord sequences
    → expand (contiguous_ledger_batches sequences max_count) ≡ sequences
unfolding contiguous_ledger_batches
contiguous_ledger_batches-expand [] m w = refl
contiguous_ledger_batches-expand (s ∷ rest) m w =
    batches_from-expand _ s s 0 rest w.0 (omega arith) w.1

abbrev pub IsWithin : ℕ → LedgerBatch → Type 0
IsWithin limit b = (1 ≤ b.count) × (b.count ≤ limit)

batches_from-IsWithin :
    (limit start previous count : ℕ) (rest : List ℕ)
    → 1 ≤ count
    → count ≤ limit
    → All (IsWithin limit) (batches_from (pos limit) start previous count rest)
unfolding batches_from
batches_from-IsWithin limit start previous count [] h k = ((h, k), tt)
batches_from-IsWithin limit start previous count (s ∷ rest) h k =
    elim (Bool-cases (s == u32 (previous + 1) && ltb_ℤ (pos count) (pos limit))) [
      | inl joined ↦
          rw joined
            (batches_from-IsWithin limit start s (count + 1) rest (omega arith) (ground arith))
      | inr flushed ↦
          rw flushed ((h, k), batches_from-IsWithin limit s s 1 rest (omega arith) (omega arith))
    ]

-- With a positive limit every batch asks for at least one ledger and for no more than the limit;
-- with a limit of zero or less, for no more than there are sequences.
pub contiguous_ledger_batches-IsWithin :
    (sequences : List ℕ) (max_count : ℤ)
    → All
        (IsWithin (if leb_ℤ max_count (pos 0) then length sequences else pos_part max_count))
        (contiguous_ledger_batches sequences max_count)
unfolding contiguous_ledger_batches
contiguous_ledger_batches-IsWithin [] m = tt
contiguous_ledger_batches-IsWithin (s ∷ rest) (pos (suc n)) =
    let limited : leb_ℤ (pos (suc n)) (pos 0) ≡ false = ground arith in
    rw limited (batches_from-IsWithin (suc n) s s 1 rest (omega arith) (omega arith))
contiguous_ledger_batches-IsWithin (s ∷ rest) (pos zero) =
    batches_from-IsWithin (suc (length rest)) s s 1 rest (omega arith) (omega arith)
contiguous_ledger_batches-IsWithin (s ∷ rest) (negsuc n) =
    let unlimited : leb_ℤ (negsuc n) (pos 0) ≡ true = ground arith in
    rw unlimited (batches_from-IsWithin (suc (length rest)) s s 1 rest (omega arith) (omega arith))
