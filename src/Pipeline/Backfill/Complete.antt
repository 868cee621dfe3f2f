-- ===== src/Pipeline/Backfill/Complete.antt =====
-- What a backfill worker has done when it ends without an error.
use stellarview_tui.Prelude.{
  ℕ, zero, suc, ◌+◌, ◌-◌, ◌≤◌, ◌<◌, ◌≡◌, refl, false, List, [], ◌∷◌, map, length, count_from, All,
  arith,
}
use stellarview_tui.Prelude.Int.{ℤ, pos, ◌≤ℤ◌}
use stellarview_tui.Pipeline.Source.{LedgerEntry}
use stellarview_tui.Pipeline.Exec.{ok, wrapping}
use stellarview_tui.Pipeline.Exec.Inversion.{bind-eq-ok, wrapping-eq-ok}
use stellarview_tui.Pipeline.Services.{Services, State, pure_call}
use stellarview_tui.Pipeline.Ledger.{process_one_ledger}
use stellarview_tui.Pipeline.Ledger.Commit.{NamesItself}
use stellarview_tui.Pipeline.Live.{fetch_ledgers}
use stellarview_tui.Pipeline.Live.Node.{AnswersInOrder, HeadersMatch, fetched_answer}
use stellarview_tui.Pipeline.Live.Rounds.{
  process_one_ledger-Stored, Stored, Stored-nothing, Stored-then,
}
use stellarview_tui.Pipeline.Backfill.Worker.{worker_from-Stored}
use stellarview_tui.Pipeline.Backfill.{process_close_metas, backfill_batch, run_worker}

-- The batches of the backfill.
module _ (services : Services) (node : AnswersInOrder services)
    (headers : HeadersMatch services) where
  open services use {World}

  process_close_metas-Stored :
      (start k last : ℕ) (entries : List LedgerEntry) (processed n : ℕ) (s : State World)
      → All (NamesItself services) entries
      → map (λ (l : LedgerEntry). l.sequence) entries ≡ count_from start k
      → k ≡ length entries
      → last + 1 ≡ start + k
      → (process_close_metas services entries processed s).0 ≡ ok n
      → (n ≡ processed + k)
        × Stored start last s.db (process_close_metas services entries processed s).1.db
  unfolding process_close_metas
  process_close_metas-Stored start zero last [] processed n s named e l p h =
      (ground arith, Stored-nothing start last s.db (omega arith))
  process_close_metas-Stored start (suc k) last [] processed n s named e l p h =
      absurd (omega arith)
  process_close_metas-Stored start zero last (entry ∷ entries) processed n s named e l p h =
      absurd (omega arith)
  process_close_metas-Stored start (suc k) last (entry ∷ entries) processed n s named e l p h =
      let decode =
        wrapping "decode ledger %d: %w" (entry.sequence ∷ [])
          (pure_call (services.decode_metadata_xdr entry.metadata_xdr)) in
      let (lcm, decoded, after1, h1) = bind-eq-ok decode _ s n h in
      let extract =
        wrapping "extract txs ledger %d: %w" (entry.sequence ∷ [])
          (pure_call (services.transaction_entries_from_close_meta lcm)) in
      let (txs, extracted, after2, h2) = bind-eq-ok extract _ s n h1 in
      let one = process_one_ledger services false false entry txs in
      let action = wrapping "process ledger %d: %w" (entry.sequence ∷ []) one in
      let (u, first, after3, later) = bind-eq-ok action _ s n h2 in
      let rest =
        process_close_metas-Stored (start + 1) k last entries (processed + 1) n (action s).1 named.1
          (cc) (omega arith) (omega arith) later in
      rw (after1, after2, after3)
        (
          omega (arith, rest.0),
          Stored-then start start (start + 1) last s.db (action s).1.db _ (omega arith) refl
              (process_one_ledger-Stored services false false entry txs start s named.0 (cc)
                (wrapping-eq-ok _ _ one s tt first))
              rest.1,
        )

  backfill_batch-Stored :
      (start : ℕ) (limit : ℤ) (s : State World) (n : ℕ)
      → pos 1 ≤ℤ limit
      → (backfill_batch services start limit s).0 ≡ ok n
      → ((1 ≤ n) × (pos n ≤ℤ limit))
        × Stored start (start + n - 1) s.db (backfill_batch services start limit s).1.db
  unfolding backfill_batch fetch_ledgers
  backfill_batch-Stored start limit s n asked h =
      let action = fetch_ledgers services start limit in
      let (fetched, first, after, later) = bind-eq-ok action _ s n h in
      let answer = fetched_answer services start limit s fetched first in
      let (run, positive, bounded) = node start limit s.world fetched asked answer in
      let rest =
        process_close_metas-Stored start (length fetched.ledgers)
          (start + length fetched.ledgers - 1) fetched.ledgers 0 n (action s).1
          (headers start limit s.world fetched answer) run refl (omega arith) later in
      let count : n ≡ length fetched.ledgers = omega (arith, rest.0) in
      rw (after, count) ((positive, bounded), rest.1)

  module _ (fuel : ℕ) (batch_size : ℤ) (start end : ℕ) (s : State World) (small : end < 4294967295)
      (ordered : start ≤ end + 1) (sized : pos 1 ≤ℤ batch_size) where
    -- Against a node that answers requests for some ledgers in order, with headers that name their
    -- ledgers: when `run_worker` ends without an error, with a positive batch size, on a range (of
    -- uint32, below the last one) that is not reversed, it has counted and stored every ledger of
    -- its range, lost no stored ledger, and the cursor of the database covers the range.
    pub run_worker-Stored :
        (n : ℕ)
        → (run_worker services fuel batch_size start end s).0 ≡ ok n
        → (n ≡ end + 1 - start)
          × Stored start end s.db (run_worker services fuel batch_size start end s).1.db
    unfolding run_worker
    run_worker-Stored n h =
        let (count, stored) =
          worker_from-Stored services (backfill_batch services)
            (λ cursor limit t m asked e. (backfill_batch-Stored cursor limit t m asked e).0)
            batch_size end small sized
            (λ cursor limit t m asked e. (backfill_batch-Stored cursor limit t m asked e).1) fuel
            start 0 n s ordered h in
        (omega arith, stored)
