-- ===== src/Pipeline/Backfill/Worker.antt =====
-- The loop of a backfill worker: what it stores, and that it ends.
use stellarview_tui.Prelude.{
  ℕ, zero, suc, ◌+◌, ◌-◌, ◌≤◌, ◌<◌, ◌≡◌, ◌≢◌, sym, ap, ◌∙◌, false, ◌==◌, inl, inr, leb, Bool-cases,
  arith,
}
use stellarview_tui.Prelude.Int.{ℤ, pos, ◌≤ℤ◌}
use stellarview_tui.Prelude.Words.{u32}
use stellarview_tui.Pipeline.Exec.{reported, ok, err, unfinished, Exec}
use stellarview_tui.Pipeline.Exec.Inversion.{
  bind-eq-ok, bind-finishes, wrapping-eq-ok, wrapping-finishes,
}
use stellarview_tui.Pipeline.Services.{Services, State}
use stellarview_tui.Pipeline.Live.{batch_limit}
use stellarview_tui.Pipeline.Live.Progress.{
  Progresses, batch_limit-positive, process_batch-advances,
}
use stellarview_tui.Pipeline.Live.Rounds.{Stored, Stored-nothing, Stored-then}
use stellarview_tui.Pipeline.Backfill.{unless_cancelled, worker_batch, worker_from, context_done}

module _ (services : Services) (process_batch : ℕ → ℤ → Exec (State services.World) ℕ) where
  open services use {World}

  -- The state in which a round runs.
  abbrev pub checked : State World → State World
  checked s = record s { world = (services.signal s.world).1 }

  unless_cancelled-eq-ok :
      (round : Exec (State World) ℕ) (n : ℕ) (s : State World)
      → (unless_cancelled (context_done services) process_batch round s).0 ≡ ok n
      → unless_cancelled (context_done services) process_batch round s ≡ round (checked s)
  unfolding unless_cancelled context_done
  unless_cancelled-eq-ok round n s h =
      let (stop, asked, after, later) = bind-eq-ok (context_done services) _ s n h in
      elim (Bool-cases stop) [
        | inl stopped ↦ let e : err (reported "context canceled") ≡ ok n = rw stopped at later in cc
        | inr free ↦ after ∙ rw free
      ]

  unless_cancelled-finishes :
      (round : Exec (State World) ℕ) (s : State World)
      → (round (checked s)).0 ≢ unfinished
      → (unless_cancelled (context_done services) process_batch round s).0 ≢ unfinished
  unfolding unless_cancelled context_done
  unless_cancelled-finishes round s h =
      bind-finishes (context_done services) _ s (λ e. cc)
        λ stop asked. elim (Bool-cases stop) [
          | inl stopped ↦ rw stopped (λ e. cc)
          | inr free ↦ rw free h
        ]

  module _ (progress : Progresses process_batch) (batch_size : ℤ) (end : ℕ)
      (small : end < 4294967295) (positive : pos 1 ≤ℤ batch_size) where
    abbrev loop : ℕ → ℕ → ℕ → Exec (State World) ℕ
    loop fuel cursor processed =
        worker_from (context_done services) process_batch fuel batch_size end cursor processed

    pub worker_from-finishes :
        ((cursor : ℕ) (limit : ℤ) (s : State World) → (process_batch cursor limit s).0 ≢ unfinished)
        → (fuel cursor processed : ℕ) (s : State World) → end + 1 - cursor < fuel
        → (loop fuel cursor processed s).0 ≢ unfinished
    unfolding worker_from worker_batch
    worker_from-finishes ends zero cursor processed s h = absurd (omega arith)
    worker_from-finishes ends (suc fuel) cursor processed s h = elim (Bool-cases (leb cursor end)) [
      | inr done ↦ rw done (λ e. cc)
      | inl more ↦
          let batch = worker_batch (context_done services) process_batch batch_size end cursor in
          let inner = process_batch cursor (batch_limit batch_size end cursor) in
          rw more (
            unless_cancelled-finishes _ s (
              bind-finishes batch _ (checked s)
                (wrapping-finishes _ _ inner (checked s) (ends _ _ (checked s)))
                λ count first.
                  let (same, above, below) =
                    process_batch-advances process_batch progress batch_size end small positive
                      cursor count (checked s) (ground arith)
                      (wrapping-eq-ok _ _ inner (checked s) count first) in
                  let some_count : (count == 0) ≡ false = ground arith in
                  rw some_count (
                    worker_from-finishes ends fuel (u32 (cursor + count)) (processed + count) _
                      (omega arith))))
    ]

    module _
        (stores : (cursor : ℕ) (limit : ℤ) (s : State World) (n : ℕ)
          → pos 1 ≤ℤ limit
          → (process_batch cursor limit s).0 ≡ ok n
          → Stored cursor (cursor + n - 1) s.db (process_batch cursor limit s).1.db) where
      pub worker_from-Stored :
          (fuel cursor processed n : ℕ) (s : State World)
          → cursor ≤ end + 1
          → (loop fuel cursor processed s).0 ≡ ok n
          → (n ≡ processed + (end + 1 - cursor))
            × Stored cursor end s.db (loop fuel cursor processed s).1.db
      unfolding worker_from worker_batch
      worker_from-Stored zero cursor processed n s c h = cc
      worker_from-Stored (suc fuel) cursor processed n s c h = elim (Bool-cases (leb cursor end)) [
        | inr done ↦
            let e : ok processed ≡ ok n = rw done at h in
            rw done (ground arith, Stored-nothing cursor end s.db (ground arith))
        | inl more ↦
            let batch = worker_batch (context_done services) process_batch batch_size end cursor in
            let run = unless_cancelled-eq-ok _ n s (rw more at h) in
            let (count, first, after, later) =
              bind-eq-ok batch _ (checked s) n (ap (λ r. r.0) (sym run) ∙ rw more at h) in
            let inner : (process_batch cursor (batch_limit batch_size end cursor) (checked s)).0
                ≡ ok count =
              wrapping-eq-ok _ _ (process_batch cursor (batch_limit batch_size end cursor))
                (checked s) count first in
            let here : cursor ≤ end = ground arith in
            let (same, above, below) =
              process_batch-advances process_batch progress batch_size end small positive cursor
                count (checked s) here inner in
            let asked = batch_limit-positive batch_size end cursor positive here small in
            let some_count : (count == 0) ≡ false = ground arith in
            let rest =
              worker_from-Stored fuel (u32 (cursor + count)) (processed + count) n
                (batch (checked s)).1 (omega arith) (rw some_count at later) in
            rw (more, run, after, some_count)
              (
                omega (arith, rest.0),
                Stored-then cursor (cursor + count - 1) (u32 (cursor + count)) end s.db
                    (batch (checked s)).1.db _ (omega arith) (omega arith)
                    (stores cursor (batch_limit batch_size end cursor) (checked s) count asked
                      inner)
                    rest.1,
              )
      ]
