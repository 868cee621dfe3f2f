-- ===== src/Pipeline/Live/Progress.antt =====
-- The loop of `ingestNewLedgers` ends when every batch makes progress, and never ends when the
-- node answers with no ledgers.
use stellarview_tui.Prelude.{
  ℕ, zero, suc, ◌+◌, ◌-◌, ◌≤◌, ◌<◌, ◌≡◌, ◌≢◌, refl, true, inl, inr, leb, Bool-cases, arith,
}
use stellarview_tui.Prelude.Int.{ℤ, pos, ◌≤ℤ◌}
use stellarview_tui.Prelude.Words.{u32}
use stellarview_tui.Pipeline.Exec.{ok, unfinished, Exec}
use stellarview_tui.Pipeline.Exec.Inversion.{
  bind-eq-ok, bind_of_ok, bind-finishes, wrapping-eq-ok, wrapping-finishes,
}
use stellarview_tui.Pipeline.Live.{batch_limit, one_batch, ingest_from}

-- Every batch that is processed holds at least one ledger, and no more than were asked for, if any
-- were asked for.
abbrev pub Progresses : {S : Type 0} → (ℕ → ℤ → Exec S ℕ) → Type 0
Progresses {S} process_batch =
    (cursor : ℕ) (limit : ℤ) (s : S) (n : ℕ)
    → pos 1 ≤ℤ limit
    → (process_batch cursor limit s).0 ≡ ok n
    → (1 ≤ n) × (pos n ≤ℤ limit)

batch_limit-le :
    (batch_size : ℤ) (latest cursor n : ℕ)
    → cursor ≤ latest
    → latest < 4294967295
    → pos n ≤ℤ batch_limit batch_size latest cursor
    → n ≤ latest + 1 - cursor
unfolding batch_limit
batch_limit-le batch_size latest cursor n h small k = ground arith

-- With a batch size that is positive, every batch asks for a ledger at least.
pub batch_limit-positive :
    (batch_size : ℤ) (latest cursor : ℕ)
    → pos 1 ≤ℤ batch_size
    → cursor ≤ latest
    → latest < 4294967295
    → pos 1 ≤ℤ batch_limit batch_size latest cursor
unfolding batch_limit
batch_limit-positive batch_size latest cursor positive h small = ground arith

module _ {S : Type 0} (process_batch : ℕ → ℤ → Exec S ℕ) (progress : Progresses process_batch)
    (batch_size : ℤ) (latest : ℕ) (small : latest < 4294967295)
    (positive : pos 1 ≤ℤ batch_size) where
  pub process_batch-advances :
      (cursor n : ℕ) (s : S)
      → cursor ≤ latest
      → (process_batch cursor (batch_limit batch_size latest cursor) s).0 ≡ ok n
      → (u32 (cursor + n) ≡ cursor + n) × (cursor < cursor + n) × (cursor + n ≤ latest + 1)
  process_batch-advances cursor n s h e =
      let asked = batch_limit-positive batch_size latest cursor positive h small in
      let (some_ledger, bounded) = progress cursor _ s n asked e in
      omega (arith, batch_limit-le batch_size latest cursor n h small bounded)

  -- The cursor after a batch is past the one before, and at most one past the latest ledger.
  pub one_batch-advances :
      (cursor n : ℕ) (s : S)
      → cursor ≤ latest
      → (one_batch process_batch batch_size latest cursor s).0 ≡ ok n
      → (u32 (cursor + n) ≡ cursor + n) × (cursor < cursor + n) × (cursor + n ≤ latest + 1)
  unfolding one_batch
  one_batch-advances cursor n s h e =
      process_batch-advances cursor n s h
        (wrapping-eq-ok _ _ (process_batch cursor (batch_limit batch_size latest cursor)) s n e)

  -- When every batch progresses, a loop that ends well has counted every ledger from the cursor to
  -- the latest.
  pub ingest_from-eq-ok :
      (fuel cursor total n : ℕ) (s : S)
      → cursor ≤ latest + 1
      → (ingest_from process_batch fuel batch_size latest cursor total s).0 ≡ ok n
      → n ≡ total + (latest + 1 - cursor)
  unfolding ingest_from
  ingest_from-eq-ok zero cursor total n s c h = cc
  ingest_from-eq-ok (suc fuel) cursor total n s c h = elim (Bool-cases (leb cursor latest)) [
    | inl more ↦
        let (count, first, _, later) =
          bind-eq-ok (one_batch process_batch batch_size latest cursor) _ s n (rw more at h) in
        let (same, above, below) = one_batch-advances cursor count s (ground arith) first in
        omega (
          arith,
          ingest_from-eq-ok fuel (u32 (cursor + count)) (total + count) n _ (omega arith) later,
        )
    | inr done ↦ let e : ok total ≡ ok n = rw done at h in ground arith
  ]

  -- With enough fuel the loop ends, if no batch runs forever.
  pub ingest_from-finishes :
      ((cursor : ℕ) (limit : ℤ) (s : S) → (process_batch cursor limit s).0 ≢ unfinished)
      → (fuel cursor total : ℕ) (s : S) → latest + 1 - cursor < fuel
      → (ingest_from process_batch fuel batch_size latest cursor total s).0 ≢ unfinished
  unfolding ingest_from one_batch
  ingest_from-finishes ends zero cursor total s h = absurd (omega arith)
  ingest_from-finishes ends (suc fuel) cursor total s h = elim (Bool-cases (leb cursor latest)) [
    | inl more ↦ rw more (
        bind-finishes (one_batch process_batch batch_size latest cursor) _ s
          (wrapping-finishes _ _ (process_batch cursor (batch_limit batch_size latest cursor)) s
            (ends _ _ s))
          λ count first.
            let (same, above, below) = one_batch-advances cursor count s (ground arith) first in
            ingest_from-finishes ends fuel (u32 (cursor + count)) (total + count) _ (omega arith))
    | inr done ↦ rw done (λ e. cc)
  ]

module _ {S : Type 0} (process_batch : ℕ → ℤ → Exec S ℕ) (batch_size : ℤ) (latest : ℕ)
    (small : latest < 4294967295) where
  -- A batch that holds no ledgers repeats forever: no fuel is enough.
  pub ingest_from-stuck :
      ((cursor : ℕ) (limit : ℤ) (s : S) → (process_batch cursor limit s).0 ≡ ok 0)
      → (fuel cursor total : ℕ) (s : S) → cursor ≤ latest
      → (ingest_from process_batch fuel batch_size latest cursor total s).0 ≡ unfinished
  unfolding ingest_from one_batch
  ingest_from-stuck idles zero cursor total s h = refl
  ingest_from-stuck idles (suc fuel) cursor total s h =
      let more : leb cursor latest ≡ true = ground arith in
      let batch = one_batch process_batch batch_size latest cursor in
      let first : (batch s).0 ≡ ok 0 = rw (idles cursor (batch_limit batch_size latest cursor) s) in
      let same : u32 (cursor + 0) ≡ cursor = omega arith in
      rw (more, bind_of_ok batch _ s 0 first, same)
        (ingest_from-stuck idles fuel cursor (total + 0) (batch s).1 h)
