-- ===== src/Pipeline/Backfill/Idle.antt =====
-- A backfill worker whose first getLedgers is answered with no ledgers.
use stellarview_tui.Prelude.{ℕ, suc, ◌≡◌, refl, ◌∙◌, [], false, inl, inr, leb, Bool-cases}
use stellarview_tui.Prelude.Int.{ℤ}
use stellarview_tui.Pipeline.Source.{GetLedgersResult}
use stellarview_tui.Pipeline.Exec.{ok}
use stellarview_tui.Pipeline.Exec.Inversion.{bind_of_ok}
use stellarview_tui.Pipeline.Services.{Services, State}
use stellarview_tui.Pipeline.Live.{ledgers_request, batch_limit, fetch_ledgers}
use stellarview_tui.Pipeline.Backfill.{
  unless_cancelled, worker_batch, worker_from, context_done, process_close_metas, backfill_batch,
  run_worker,
}

module _ (services : Services) where
  open services use {World}

  backfill_batch-idle :
      (start : ℕ) (limit : ℤ) (s : State World) (r : GetLedgersResult)
      → (services.get_ledgers (ledgers_request start limit) s.world).0 ≡ ok r
      → r.ledgers ≡ []
      → ((backfill_batch services start limit s).0 ≡ ok 0)
        × ((backfill_batch services start limit s).1.db ≡ s.db)
  unfolding backfill_batch fetch_ledgers process_close_metas
  backfill_batch-idle start limit s r answer empty =
      let first : (fetch_ledgers services start limit s).0 ≡ ok r =
        unfold fetch_ledgers in rw answer in
      rw (bind_of_ok (fetch_ledgers services start limit) _ s r first, empty) (refl, refl)

  -- When the context is not done and the node answers the worker's first getLedgers, from the start
  -- of its range, with no ledgers, the worker ends without an error and with nothing stored,
  -- whatever its range is.
  pub run_worker-idle :
      (fuel : ℕ) (batch_size : ℤ) (start end : ℕ) (s : State World) (r : GetLedgersResult)
      → (context_done services s).0 ≡ ok false
      → (services.get_ledgers
          (ledgers_request start (batch_limit batch_size end start))
          (context_done services s).1.world).0
        ≡ ok r
      → r.ledgers ≡ []
      → ((run_worker services (suc fuel) batch_size start end s).0 ≡ ok 0)
        × ((run_worker services (suc fuel) batch_size start end s).1.db ≡ s.db)
  unfolding run_worker worker_from worker_batch unless_cancelled
  run_worker-idle fuel batch_size start end s r free answer empty =
      elim (Bool-cases (leb start end)) [
        | inr done ↦ rw done (refl, refl)
        | inl more ↦
            let batch =
              worker_batch (context_done services) (backfill_batch services) batch_size end start in
            let limit = batch_limit batch_size end start in
            let t = (context_done services s).1 in
            let idle = backfill_batch-idle start limit t r answer empty in
            let first : (batch t).0 ≡ ok 0 = rw (idle.0) in
            rw
              (
                more,
                bind_of_ok (context_done services) _ s false free,
                bind_of_ok batch _ t 0 first,
              )
              (refl, idle.1 ∙ unfold context_done in refl)
      ]
