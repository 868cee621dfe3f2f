-- ===== src/Pipeline/Live/Stall.antt =====
-- The loop of `ingestNewLedgers` against a node whose getLedgers answers hold no ledgers: unlike
-- the worker of the backfill, it has no exit for a batch of none.
use stellarview_tui.Prelude.{ℕ, ◌+◌, ◌<◌, ◌≡◌, false, ◌==◌, leb, Bool, arith}
use stellarview_tui.Prelude.Int.{ℤ}
use stellarview_tui.Prelude.Words.{u32}
use stellarview_tui.Pipeline.Exec.{unfinished}
use stellarview_tui.Pipeline.Services.{Services, State}
use stellarview_tui.Pipeline.Live.{ingest_after, process_ledger_batch}
use stellarview_tui.Pipeline.Live.Progress.{ingest_from-stuck}
use stellarview_tui.Pipeline.Live.Node.{AnswersNothing, process_ledger_batch-idle}

module _ (services : Services) (page_fuel : ℕ) (has_publisher : Bool) where
  -- While getLedgers answers with no ledgers, a round of live ingestion that is behind the latest
  -- ledger (below the last uint32) never ends: there is no fuel with which it does.
  pub ingest_after-stuck :
      AnswersNothing services
      → (fuel : ℕ) (batch_size : ℤ) (latest last : ℕ) (s : State services.World) → 0 < last
      → last < latest
      → latest < 4294967295
      → (ingest_after services fuel page_fuel batch_size has_publisher latest last s).0 ≡ unfinished
  unfolding ingest_after
  ingest_after-stuck node fuel batch_size latest last s positive behind small =
      let later_run : (last == 0) ≡ false = ground arith in
      let next : u32 (last + 1) ≡ last + 1 = omega arith in
      let run : leb latest last ≡ false = ground arith in
      rw (later_run, run, next)
        (ingest_from-stuck (process_ledger_batch services page_fuel has_publisher) batch_size latest
          small (process_ledger_batch-idle services page_fuel has_publisher node) fuel (last + 1) 0
          s (omega arith))
