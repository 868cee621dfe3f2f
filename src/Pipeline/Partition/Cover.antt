-- ===== src/Pipeline/Partition/Cover.antt =====
-- The workers of a backfill take every ledger of the range exactly once.
use stellarview_tui.Prelude.{
  ℕ, zero, suc, ◌+◌, ◌-◌, ◌*◌, ◌/◌, ◌≤◌, ◌<◌, ◌≡◌, ◌++◌, refl, List, [], ◌∷◌, min, ltb, ◌==◌,
  if◌then◌else◌, length, count_from, count_from-add, arith, sym, ◌∙◌, ◌↔◌, ◌≢◌, Bool-cases, inl,
  inr, false, ap,
}
use mathlib.Core.List.{append-nil}
use stellarview_tui.Prelude.Int.{ℤ, pos, negsuc, ltb_ℤ, ◌≤ℤ◌}
use stellarview_tui.Prelude.Words.{u32, sub_u32}
use stellarview_tui.Pipeline.Partition.{
  Chunk, started, panicked, chunk_at, chunks_from, start_workers, plan,
}

-- The ledgers of a worker's inclusive range, in the order in which it asks for them.
abbrev pub ledgers_of : Chunk → List ℕ
ledgers_of c = count_from c.first (c.last + 1 - c.first)

abbrev pub all_ledgers : List Chunk → List ℕ
all_ledgers [] = []
all_ledgers (c ∷ cs) = ledgers_of c ++ all_ledgers cs

abbrev IsBusy : Chunk → Type 0
IsBusy c = c.first ≤ c.last

module _ (n c a b : ℕ) (order : a ≤ b) (small : b < 4294967296) (fits : n * c ≤ b + 1 - a)
    (busy : 1 ≤ c) where
  -- The products that worker `i` computes stay inside the range, so nothing wraps.
  offset_fits : (i : ℕ) → i < n → i * c + c ≤ n * c
  offset_fits i h = grind arith

  le_offset : (i : ℕ) → i ≤ i * c
  le_offset i = grind arith

  first-chunk_at : (i : ℕ) → i < n → (chunk_at i n c a b).first ≡ a + i * c
  unfolding chunk_at
  first-chunk_at i h =
      let small_i : u32 i ≡ i = omega (arith, offset_fits i h, le_offset i) in
      rw small_i (omega (arith, offset_fits i h))

  last-chunk_at_inner : (i : ℕ) → i + 1 < n → (chunk_at i n c a b).last + 1 ≡ a + i * c + c
  unfolding chunk_at
  last-chunk_at_inner i h =
      let small_i : u32 i ≡ i = omega (arith, offset_fits i (omega arith), le_offset i) in
      rw small_i (ground (arith, offset_fits (i + 1) h))

  last-chunk_at_final : (i : ℕ) → i + 1 ≡ n → (chunk_at i n c a b).last ≡ b
  unfolding chunk_at
  last-chunk_at_final i h = ground arith

  chunks_from_cover :
      (left i : ℕ)
      → i + suc left ≡ n
      → all_ledgers (chunks_from (suc left) i n c a b)
        ≡ count_from (a + i * c) (b + 1 - (a + i * c))
  unfolding chunks_from
  chunks_from_cover zero i e =
      rw (first-chunk_at i (omega arith), last-chunk_at_final i (omega arith)) (append-nil _)
  chunks_from_cover (suc left) i e =
      let next : a + (i + 1) * c ≡ a + i * c + c = omega arith in
      let size : b + 1 - (a + i * c) ≡ c + (b + 1 - (a + i * c + c)) =
        omega (arith, offset_fits i (omega arith)) in
      let inner : a + i * c + c - (a + i * c) ≡ c = omega arith in
      rw
        (
          first-chunk_at i (omega arith),
          last-chunk_at_inner i (omega arith),
          chunks_from_cover left (i + 1) (omega arith),
          next,
          size,
          inner,
        )
        (sym (count_from-add (a + i * c) c _))

length-chunks_from : (left i n c a b : ℕ) → length (chunks_from left i n c a b) ≡ left
unfolding chunks_from
length-chunks_from zero i n c a b = refl
length-chunks_from (suc left) i n c a b = ap suc (length-chunks_from left (i + 1) n c a b)

chunks_from_cover_all :
    (m a b : ℕ)
    → a ≤ b
    → b < 4294967296
    → 0 < m
    → m ≤ b + 1 - a
    → all_ledgers (chunks_from m 0 m ((b + 1 - a) / m) a b) ≡ count_from a (b + 1 - a)
chunks_from_cover_all zero a b order small h k = absurd (omega arith)
chunks_from_cover_all (suc m) a b order small h k =
    let c = (b + 1 - a) / suc m in
    let base : a + 0 * c ≡ a = omega arith in
    rw base at
      (chunks_from_cover (suc m) c a b order small (grind arith) (grind arith) m 0 (omega arith))

start_workers-pos :
    (m t a b : ℕ)
    → 0 < m
    → m < 4294967296
    → start_workers (pos m) t a b ≡ started (chunks_from m 0 m (t / m) a b)
unfolding start_workers
start_workers-pos m t a b pos_m small =
    let same : u32 m ≡ m = omega arith in
    let nonzero : (m == 0) ≡ false = ground arith in rw same (rw nonzero)

chosen : (w t : ℕ) → (if ltb_ℤ (pos t) (pos w) then pos t else pos w) ≡ pos (min w t)
chosen w t = ground arith

plan-started :
    (a b w : ℕ)
    → a ≤ b
    → b < 4294967296
    → b + 1 - a < 4294967296
    → 0 < w
    → plan a b (pos w) ≡ start_workers (pos (min w (b + 1 - a))) (b + 1 - a) a b
unfolding plan
plan-started a b w order small proper h =
    let allowed : ltb b a ≡ false = ground arith in
    let total : u32 (sub_u32 b a + 1) ≡ b + 1 - a = omega arith in
    rw (allowed, total) (ap (λ m. start_workers m (b + 1 - a) a b) (chosen w (b + 1 - a)))

-- For a range `a ≤ b` of uint32 ledgers that is not all of them and a positive worker count, `plan`
-- starts as many workers as there are ledgers or fewer, and their ranges, one after the other, are
-- exactly the ledgers from `a` to `b`: none is left out, and none is given to two workers.
pub plan_cover :
    (a b w : ℕ)
    → a ≤ b
    → b < 4294967296
    → b + 1 - a < 4294967296
    → 0 < w
    → (cs : List Chunk) × (plan a b (pos w) ≡ started cs)
      × (length cs ≡ min w (b + 1 - a))
      × (all_ledgers cs ≡ count_from a (b + 1 - a))
plan_cover a b w order small proper h =
    let m = min w (b + 1 - a) in
    (
      chunks_from m 0 m ((b + 1 - a) / m) a b,
      plan-started a b w order small proper h
          ∙ start_workers-pos m (b + 1 - a) a b (omega arith) (omega arith),
      length-chunks_from m 0 m ((b + 1 - a) / m) a b,
      chunks_from_cover_all m a b order small (omega arith) (omega arith),
    )

plan-ne-panicked :
    (a b n : ℕ) → b < 4294967296 → b + 1 - a < 4294967296 → plan a b (pos (suc n)) ≢ panicked
plan-ne-panicked a b n small proper h = elim (Bool-cases (ltb b a)) [
  | inl empty ↦ unfold plan in ground arith
  | inr full ↦
      let (cs, runs, _, _) = plan_cover a b (suc n) (ground arith) small proper (omega arith) in
      cc (runs, h)
]

-- `plan` panics exactly when the range is not empty and the worker count is not positive, as
-- `WORKER_COUNT=0` makes it (the range being less than all uint32 ledgers).
pub plan_panics :
    (a b : ℕ) (w : ℤ)
    → b < 4294967296
    → b + 1 - a < 4294967296
    → (plan a b w ≡ panicked) ↔ ((a ≤ b) × (w ≤ℤ pos 0))
unfolding plan start_workers
plan_panics a b (pos zero) small proper = (λ h. ground arith, λ h. ground arith)
plan_panics a b (pos (suc n)) small proper =
    (λ h. absurd (plan-ne-panicked a b n small proper h), λ h. absurd (omega arith))
plan_panics a b (negsuc n) small proper = (λ h. ground arith, λ h. ground arith)
