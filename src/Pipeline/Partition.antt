-- ===== src/Pipeline/Partition.antt =====
-- How a backfill splits its ledger range over the workers: `BackfillPipeline.Run` of
-- tui-indexer/internal/pipeline/backfill.go and `S3BackfillPipeline.Run` of s3backfill.go.
pub mod Cover
use stellarview_tui.Prelude.{
  ℕ, zero, suc, ◌+◌, ◌-◌, ◌*◌, ◌/◌, List, [], ◌∷◌, ltb, leb, ◌==◌, if◌then◌else◌,
}
use stellarview_tui.Prelude.Int.{ℤ, pos, negsuc, ltb_ℤ}
use stellarview_tui.Prelude.Words.{u32, sub_u32, u32_of_int}

-- The inclusive range that one worker is given.
pub record Chunk : Type 0 where
  pub first : ℕ
  pub last : ℕ

-- What `Run` does before its first worker runs: it returns an error, it panics (a division by
-- zero, or a channel of negative size), or it starts the workers.
pub data Plan : Type 0 where
  rejected : Plan
  panicked : Plan
  started : List Chunk → Plan

-- The range of worker `i`; the last worker takes the remainder.
chunk_at : ℕ → ℕ → ℕ → ℕ → ℕ → Chunk
chunk_at i workers chunk_size start_ledger end_ledger =
    let worker_start = u32 (start_ledger + u32 (u32 i * chunk_size)) in
    let worker_end = sub_u32 (u32 (worker_start + chunk_size)) 1 in
    record { first = worker_start; last = if i == workers - 1 then end_ledger else worker_end }

-- The loop over the workers, with `left` of them to come after `i` were started.
chunks_from : ℕ → ℕ → ℕ → ℕ → ℕ → ℕ → List Chunk
chunks_from zero i workers chunk_size start_ledger end_ledger = []
chunks_from (suc left) i workers chunk_size start_ledger end_ledger =
    chunk_at i workers chunk_size start_ledger end_ledger
    ∷ chunks_from left (i + 1) workers chunk_size start_ledger end_ledger

-- From the number of workers on: `totalLedgers / uint32(workers)` panics on zero, and
-- `make(chan error, workers)` on a negative number.
start_workers : ℤ → ℕ → ℕ → ℕ → Plan
unfolding chunks_from chunk_at
start_workers (negsuc n) total_ledgers start_ledger end_ledger = panicked
start_workers (pos n) total_ledgers start_ledger end_ledger =
    if u32 n == 0
    then panicked
    else started (chunks_from n 0 n (total_ledgers / u32 n) start_ledger end_ledger)

-- `BackfillPipeline.Run`, up to the start of the workers.
pub plan : ℕ → ℕ → ℤ → Plan
unfolding start_workers
plan start_ledger end_ledger worker_count =
    if ltb end_ledger start_ledger
    then rejected
    else let total_ledgers = u32 (sub_u32 end_ledger start_ledger + 1) in
      let workers =
        if ltb_ℤ (pos total_ledgers) worker_count then pos total_ledgers else worker_count in
      start_workers workers total_ledgers start_ledger end_ledger

-- `S3BackfillPipeline.Run`: the data lake starts at ledger 3.
unfoldable pub plan_s3 : ℕ → ℕ → ℤ → Plan
unfolding plan
plan_s3 start_ledger end_ledger worker_count =
    plan (if ltb start_ledger 3 then 3 else start_ledger) end_ledger worker_count
