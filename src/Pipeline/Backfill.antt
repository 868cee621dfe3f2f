-- ===== src/Pipeline/Backfill.antt =====
-- The workers of the backfill from RPC: `runWorker` and `processLedgerBatch` of
-- tui-indexer/internal/pipeline/backfill.go.
pub mod Worker
pub mod Complete
pub mod Idle
pub mod Ends
use stellarview_tui.Prelude.{
  ℕ, zero, suc, ◌+◌, String, Bool, true, false, Option, none, some, List, [], ◌∷◌, leb, ◌==◌,
  if◌then◌else◌,
}
use stellarview_tui.Prelude.Int.{ℤ, pos}
use stellarview_tui.Prelude.Words.{u32}
use stellarview_tui.Pipeline.Source.{GetLedgersParams, LedgerEntry, TransactionEntry, Pagination}
use stellarview_tui.Pipeline.Exec.{
  Failure, reported, Result, ok, err, Exec, pure, fail, give_up, wrapping, ◌>>=◌, ◌>>◌,
}
use stellarview_tui.Pipeline.Services.{Services, State, Signal, cancelled, outside, pure_call}
use stellarview_tui.Pipeline.Ledger.{process_one_ledger}
use stellarview_tui.Pipeline.Live.{batch_limit, fetch_ledgers}

-- The loop of a worker over its range, over the action that processes a batch. A batch of no
-- ledgers ends it without an error.
module _ {S : Type 0} (is_cancelled : Exec S Bool) (process_batch : ℕ → ℤ → Exec S ℕ) where
  -- The `select` at the head of the loop.
  unfoldable pub unless_cancelled : {A : Type 0} → Exec S A → Exec S A
  unless_cancelled round =
      is_cancelled >>= λ stop. if stop then fail (reported "context canceled") else round

  unfoldable pub worker_batch : ℤ → ℕ → ℕ → Exec S ℕ
  worker_batch batch_size end cursor =
      wrapping "batch at ledger %d: %w" (cursor ∷ [])
        (process_batch cursor (batch_limit batch_size end cursor))

  unfoldable pub worker_from : ℕ → ℤ → ℕ → ℕ → ℕ → Exec S ℕ
  worker_from zero batch_size end cursor processed = give_up
  worker_from (suc fuel) batch_size end cursor processed =
      let next = λ (count : ℕ).
        let rest = worker_from fuel batch_size end (u32 (cursor + count)) (processed + count) in
        if count == 0 then pure processed else rest in
      let round = unless_cancelled (worker_batch batch_size end cursor >>= next) in
      if leb cursor end then round else pure processed

module _ (services : Services) where
  open services use {World, signal, decode_metadata_xdr, transaction_entries_from_close_meta}

  is_done : Signal → Bool
  is_done cancelled = true
  is_done _ = false

  -- `ctx.Done()`
  unfoldable pub context_done : Exec (State World) Bool
  unfolding is_done
  context_done s = let (found, w) = signal s.world in (ok (is_done found), record s { world = w })

  -- The loop of `processLedgerBatch`: each ledger brings its transactions in its metadata.
  unfoldable pub process_close_metas : List LedgerEntry → ℕ → Exec (State World) ℕ
  process_close_metas [] processed = pure processed
  process_close_metas (entry ∷ entries) processed = do
    lcm ←
        wrapping "decode ledger %d: %w" (entry.sequence ∷ [])
          (pure_call (decode_metadata_xdr entry.metadata_xdr))
    txs ←
        wrapping "extract txs ledger %d: %w" (entry.sequence ∷ [])
          (pure_call (transaction_entries_from_close_meta lcm))
    wrapping "process ledger %d: %w" (entry.sequence ∷ [])
        (process_one_ledger services false false entry txs)
    process_close_metas entries (processed + 1)

  -- `BackfillPipeline.processLedgerBatch`
  unfoldable pub backfill_batch : ℕ → ℤ → Exec (State World) ℕ
  backfill_batch start_ledger limit = do
    fetched ← fetch_ledgers services start_ledger limit
    process_close_metas fetched.ledgers 0

  -- `BackfillPipeline.runWorker`; gives the ledgers it adds to the shared counter.
  unfoldable pub run_worker : ℕ → ℤ → ℕ → ℕ → Exec (State World) ℕ
  run_worker fuel batch_size start end =
      worker_from context_done backfill_batch fuel batch_size end start 0
