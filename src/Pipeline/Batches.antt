-- ===== src/Pipeline/Batches.antt =====
-- How gap filling groups the missing ledgers: `contiguousLedgerBatches` of
-- tui-indexer/internal/pipeline/live.go.
pub mod Expand
use stellarview_tui.Prelude.{
  ℕ, suc, ◌+◌, List, [], ◌∷◌, ltb, leb, ◌==◌, ◌&&◌, length, if◌then◌else◌,
}
use stellarview_tui.Prelude.Int.{ℤ, pos, leb_ℤ, ltb_ℤ}
use stellarview_tui.Prelude.Words.{u32}

pub record LedgerBatch : Type 0 where
  pub start : ℕ
  pub count : ℕ

-- The loop over the sequences after the first, from the variables of the open batch. What `flush`
-- appends stands in front of the batches of the rest.
batches_from : ℤ → ℕ → ℕ → ℕ → List ℕ → List LedgerBatch
batches_from max_count start previous count [] = record { start = start; count = count } ∷ []
batches_from max_count start previous count (sequence ∷ rest) =
    let extended = batches_from max_count start sequence (count + 1) rest in
    let fresh = batches_from max_count sequence sequence 1 rest in
    if sequence == u32 (previous + 1) && ltb_ℤ (pos count) max_count
    then extended
    else record { start = start; count = count } ∷ fresh

pub contiguous_ledger_batches : List ℕ → ℤ → List LedgerBatch
unfolding batches_from
contiguous_ledger_batches [] max_count = []
contiguous_ledger_batches (first ∷ rest) max_count =
    let limit = if leb_ℤ max_count (pos 0) then pos (suc (length rest)) else max_count in
    batches_from limit first first 1 rest
