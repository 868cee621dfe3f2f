-- ===== src/Pipeline/Backfill/Ends.antt =====
-- A backfill worker ends: `runWorker` of tui-indexer/internal/pipeline/backfill.go.
use stellarview_tui.Prelude.{ℕ, ◌+◌, ◌-◌, ◌<◌, ◌≡◌, ◌≢◌, false, List, [], ◌∷◌, length, arith}
use stellarview_tui.Prelude.Int.{ℤ, pos, ◌≤ℤ◌}
use stellarview_tui.Pipeline.Source.{LedgerEntry}
use stellarview_tui.Pipeline.Exec.{ok, unfinished}
use stellarview_tui.Pipeline.Exec.Inversion.{bind-eq-ok, bind-finishes, wrapping-finishes}
use stellarview_tui.Pipeline.Services.{Services, State, outside, pure_call}
use stellarview_tui.Pipeline.Ledger.{process_one_ledger}
use stellarview_tui.Pipeline.Ledger.Ends.{CallsEnd, process_one_ledger-finishes}
use stellarview_tui.Pipeline.Live.{ledgers_request, fetch_ledgers}
use stellarview_tui.Pipeline.Live.Node.{AnswersInOrder, fetched_answer}
use stellarview_tui.Pipeline.Live.Progress.{Progresses}
use stellarview_tui.Pipeline.Backfill.Worker.{worker_from-finishes}
use stellarview_tui.Pipeline.Backfill.{process_close_metas, backfill_batch, run_worker}

module _ (services : Services) where
  open services use {World}

  process_close_metas-eq-ok :
      (entries : List LedgerEntry) (processed n : ℕ) (s : State World)
      → (process_close_metas services entries processed s).0 ≡ ok n
      → n ≡ processed + length entries
  unfolding process_close_metas
  process_close_metas-eq-ok [] processed n s h = ground arith
  process_close_metas-eq-ok (entry ∷ entries) processed n s h =
      let (_, _, _, h1) = bind-eq-ok _ _ s n h in
      let (_, _, _, h2) = bind-eq-ok _ _ _ n h1 in
      let (_, _, _, h3) = bind-eq-ok _ _ _ n h2 in
      omega (arith, process_close_metas-eq-ok entries (processed + 1) n _ h3)

  backfill_batch-Progresses : AnswersInOrder services → Progresses (backfill_batch services)
  unfolding backfill_batch
  backfill_batch-Progresses node start limit s n asked h =
      let (fetched, first, _, rest) = bind-eq-ok (fetch_ledgers services start limit) _ s n h in
      let (_, positive, bounded) =
        node start limit s.world fetched asked
          (fetched_answer services start limit s fetched first) in
      let count : n ≡ length fetched.ledgers =
        omega (arith, process_close_metas-eq-ok fetched.ledgers 0 n _ rest) in
      rw count (positive, bounded)

  module _ (calls : CallsEnd services) where
    process_close_metas-finishes :
        (entries : List LedgerEntry) (processed : ℕ) (s : State World)
        → (process_close_metas services entries processed s).0 ≢ unfinished
    unfolding process_close_metas
    process_close_metas-finishes [] processed s = λ e. cc
    process_close_metas-finishes (entry ∷ entries) processed s =
        let decode = pure_call (services.decode_metadata_xdr entry.metadata_xdr) in
        bind-finishes _ _ s (wrapping-finishes _ _ decode s (calls.metadata entry.metadata_xdr))
          λ lcm _.
            let extract = pure_call (services.transaction_entries_from_close_meta lcm) in
            bind-finishes _ _ s (wrapping-finishes _ _ extract s (calls.entries lcm)) λ txs _.
              let one = process_one_ledger services false false entry txs in
              bind-finishes _ _ s
                (wrapping-finishes _ _ one s
                  (process_one_ledger-finishes services calls.header false false entry txs s))
                (λ u _. process_close_metas-finishes entries (processed + 1) _)

    -- A batch ends, since the calls do.
    backfill_batch-finishes :
        (start : ℕ) (limit : ℤ) (s : State World)
        → (backfill_batch services start limit s).0 ≢ unfinished
    unfolding backfill_batch fetch_ledgers
    backfill_batch-finishes start limit s =
        let ask = outside (services.get_ledgers (ledgers_request start limit)) in
        bind-finishes (fetch_ledgers services start limit) _ s
          (wrapping-finishes _ _ ask s (calls.ledgers (ledgers_request start limit) s.world))
          (λ fetched _. process_close_metas-finishes fetched.ledgers 0 _)

    -- Against a node that answers requests for some ledgers in order, when every call of the node
    -- and of the decoders returns and the batch size is positive, fuel above the number of ledgers
    -- of its range (of uint32, below the last one) is enough for `run_worker` to end.
    pub run_worker-finishes :
        AnswersInOrder services
        → (fuel : ℕ) (batch_size : ℤ) (start end : ℕ) (s : State World) → end < 4294967295
        → pos 1 ≤ℤ batch_size
        → end + 1 - start < fuel
        → (run_worker services fuel batch_size start end s).0 ≢ unfinished
    unfolding run_worker
    run_worker-finishes node fuel batch_size start end s small sized enough =
        worker_from-finishes services (backfill_batch services) (backfill_batch-Progresses node)
          batch_size end small sized backfill_batch-finishes fuel start 0 s enough
