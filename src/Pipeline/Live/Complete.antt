-- ===== src/Pipeline/Live/Complete.antt =====
-- A round of live ingestion that ends well has stored every ledger up to the latest.
use stellarview_tui.Prelude.{
  ℕ, zero, suc, ◌+◌, ◌-◌, ◌<◌, ◌≡◌, refl, sym, subst, ◌∙◌, Bool, true, false, ◌==◌, leb→lt, inl,
  inr, List, [], ◌∷◌, map, length, count_from, All, leb, Bool-cases, arith,
}
use stellarview_tui.Prelude.Int.{ℤ, pos, ◌≤ℤ◌}
use stellarview_tui.Prelude.Words.{u32}
use stellarview_tui.Store.Db.{Db, get_last_ingested_ledger}
use stellarview_tui.Pipeline.Source.{LatestLedgerResult, LedgerEntry, TransactionEntry}
use stellarview_tui.Pipeline.Exec.{ok, wrapping}
use stellarview_tui.Pipeline.Exec.Outcome.{ok-injective}
use stellarview_tui.Pipeline.Exec.Inversion.{bind-eq-ok, wrapping-eq-ok}
use stellarview_tui.Pipeline.Services.{Services, State, outside}
use stellarview_tui.Pipeline.Ledger.{process_one_ledger}
use stellarview_tui.Pipeline.Ledger.Commit.{NamesItself}
use stellarview_tui.Pipeline.Live.{
  ingest_from, ingest_after, ingest_new_ledgers, query, transactions_of, process_ledgers,
  process_fetched, process_ledger_batch, fetch_ledgers, fetch_transactions, last_sequence,
}
use stellarview_tui.Pipeline.Live.Rounds.{
  process_one_ledger-Stored, Stored, Stored-nothing, Stored-then, ingest_from-Stored,
}
use stellarview_tui.Pipeline.Live.Reads.{query-eq-ok, db-fetch_transactions}
use stellarview_tui.Pipeline.Live.Progress.{ingest_from-eq-ok}
use stellarview_tui.Pipeline.Live.Node.{
  AnswersInOrder, HeadersMatch, fetched_answer, process_fetched-eq-ok,
  process_ledger_batch-Progresses,
}

module _ (services : Services) (node : AnswersInOrder services) (headers : HeadersMatch services)
    (page_fuel : ℕ) (has_publisher : Bool) where
  open services use {World}

  process_ledgers-Stored :
      (start k last : ℕ) (entries : List LedgerEntry) (all : List TransactionEntry)
      (processed n : ℕ) (s : State World)
      → All (NamesItself services) entries
      → map (λ (l : LedgerEntry). l.sequence) entries ≡ count_from start k
      → k ≡ length entries
      → last + 1 ≡ start + k
      → (process_ledgers services has_publisher entries all processed s).0 ≡ ok n
      → Stored start last s.db (process_ledgers services has_publisher entries all processed s).1.db
  unfolding process_ledgers
  process_ledgers-Stored start zero last [] all processed n s headers e l p h =
      Stored-nothing start last s.db (omega arith)
  process_ledgers-Stored start (suc k) last [] all processed n s headers e l p h =
      absurd (omega arith)
  process_ledgers-Stored start zero last (entry ∷ entries) all processed n s headers e l p h =
      absurd (omega arith)
  process_ledgers-Stored start (suc k) last (entry ∷ entries) all processed n s headers e l p h =
      let one =
        process_one_ledger services true has_publisher entry (transactions_of entry.sequence all) in
      let action = wrapping "processLedger %d: %w" (entry.sequence ∷ []) one in
      let (u, first, after, later) = bind-eq-ok action _ s n h in
      rw after (
        Stored-then start start (start + 1) last s.db (action s).1.db _ (omega arith) refl
          (process_one_ledger-Stored services true has_publisher entry _ start s headers.0 (cc)
            (wrapping-eq-ok _ _ one s tt first))
          (process_ledgers-Stored (start + 1) k last entries all (processed + 1) n (action s).1
            headers.1 (cc) (omega arith) (omega arith) later))

  process_fetched-Stored :
      (start n last : ℕ) (entries : List LedgerEntry) (s : State World)
      → All (NamesItself services) entries
      → map (λ (l : LedgerEntry). l.sequence) entries ≡ count_from start (length entries)
      → last + 1 ≡ start + length entries
      → (process_fetched services page_fuel has_publisher start entries s).0 ≡ ok n
      → Stored start last s.db
          (process_fetched services page_fuel has_publisher start entries s).1.db
  unfolding process_fetched
  process_fetched-Stored start n last [] s headers e p h =
      Stored-nothing start last s.db (omega arith)
  process_fetched-Stored start n last (entry ∷ entries) s headers e p h =
      let action = fetch_transactions services page_fuel start (last_sequence entry entries) in
      let (all, first, after, later) = bind-eq-ok action _ s n h in
      let unread : (action s).1.db ≡ s.db = db-fetch_transactions services page_fuel start _ s in
      rw after (
        subst
          (λ db.
            Stored start last db
              (process_ledgers services has_publisher (entry ∷ entries) all 0 (action s).1).1.db)
          unread
          (process_ledgers-Stored start (length (entry ∷ entries)) last (entry ∷ entries) all 0 n
            (action s).1 headers e refl p later))

  process_ledger_batch-Stored :
      (start : ℕ) (limit : ℤ) (s : State World) (n : ℕ)
      → pos 1 ≤ℤ limit
      → (process_ledger_batch services page_fuel has_publisher start limit s).0 ≡ ok n
      → Stored start
          (start + n - 1)
          s.db
          (process_ledger_batch services page_fuel has_publisher start limit s).1.db
  unfolding process_ledger_batch fetch_ledgers
  process_ledger_batch-Stored start limit s n asked h =
      let action = fetch_ledgers services start limit in
      let (fetched, first, after, later) = bind-eq-ok action _ s n h in
      let answer = fetched_answer services start limit s fetched first in
      let (run, some_ledger, _) = node start limit s.world fetched asked answer in
      let count =
        process_fetched-eq-ok services page_fuel has_publisher start n fetched.ledgers (action s).1
          later in
      rw after (
        process_fetched-Stored start n (start + n - 1) fetched.ledgers (action s).1
          (headers start limit s.world fetched answer) run (omega arith) later)

  ingest_after-Stored :
      (fuel : ℕ) (batch_size : ℤ) (latest last n : ℕ) (s : State World)
      → pos 1 ≤ℤ batch_size
      → latest < 4294967295
      → 0 < last
      → last < 4294967295
      → (ingest_after services fuel page_fuel batch_size has_publisher latest last s).0 ≡ ok n
      → (n ≡ latest - last)
        × Stored
            (last + 1)
            latest
            s.db
            (ingest_after services fuel page_fuel batch_size has_publisher latest last s).1.db
  unfolding ingest_after
  ingest_after-Stored fuel batch_size latest last n s sized small positive bounded h =
      let later_run : (last == 0) ≡ false = ground arith in
      let next : u32 (last + 1) ≡ last + 1 = omega arith in
      let batches = process_ledger_batch services page_fuel has_publisher in
      let progress = process_ledger_batch-Progresses services page_fuel has_publisher node in
      elim (Bool-cases (leb latest last)) [
        | inl idle ↦
            let e : ok 0 ≡ ok n = rw (later_run, idle) at h in
            rw (later_run, idle)
              (ground arith, Stored-nothing (last + 1) latest s.db (ground arith))
        | inr behind ↦
            let run : (ingest_from batches fuel batch_size latest (last + 1) 0 s).0 ≡ ok n =
              rw (later_run, behind, next) at h in
            rw (later_run, behind, next)
              (
                omega (
                  arith,
                  leb→lt latest last behind,
                  ingest_from-eq-ok batches progress batch_size latest small sized fuel (last + 1) 0
                      n s (ground arith) run,
                ),
                ingest_from-Stored services batches progress process_ledger_batch-Stored batch_size
                    latest small sized fuel (last + 1) 0 n s (ground arith) run,
              )
      ]

  -- The same, from what the queries gave.
  ingest_after-Stored_from :
      (fuel : ℕ) (batch_size : ℤ) (answer last latest cursor n : ℕ) (db : Db) (s : State World)
      → answer ≡ latest
      → last ≡ cursor
      → s.db ≡ db
      → pos 1 ≤ℤ batch_size
      → latest < 4294967295
      → 0 < cursor
      → cursor < 4294967295
      → (ingest_after services fuel page_fuel batch_size has_publisher answer last s).0 ≡ ok n
      → (n ≡ latest - cursor)
        × Stored
            (cursor + 1)
            latest
            db
            (ingest_after services fuel page_fuel batch_size has_publisher answer last s).1.db
  ingest_after-Stored_from fuel batch_size answer last latest cursor n db s e1 e2 e3 sized a b c h =
      rw (← e1, ← e2, ← e3)
        (ingest_after-Stored fuel batch_size answer last n s sized (omega arith) (omega arith)
          (omega arith) h)

  -- Against a node that answers requests for some ledgers in order, with headers that name their
  -- ledgers: when the batch size is positive and the cursor of the database is not zero (uint32,
  -- like the latest ledger, and below the last uint32), a round of `ingest_new_ledgers` that ends
  -- well has counted and stored every ledger from the one after the cursor to the latest one; no
  -- stored ledger is lost, and the cursor covers them all.
  pub ingest_new_ledgers-Stored :
      (fuel : ℕ) (batch_size : ℤ) (latest : LatestLedgerResult) (n : ℕ) (s : State World)
      → pos 1 ≤ℤ batch_size
      → (services.get_latest_ledger s.world).0 ≡ ok latest
      → latest.sequence < 4294967295
      → 0 < get_last_ingested_ledger s.db
      → get_last_ingested_ledger s.db < 4294967295
      → (ingest_new_ledgers services fuel page_fuel batch_size has_publisher s).0 ≡ ok n
      → let after = (ingest_new_ledgers services fuel page_fuel batch_size has_publisher s).1.db in
        (n ≡ latest.sequence - get_last_ingested_ledger s.db)
        × Stored (get_last_ingested_ledger s.db + 1) latest.sequence s.db after
  unfolding ingest_new_ledgers
  ingest_new_ledgers-Stored fuel batch_size latest n s sized newest small positive bounded h =
      let ask = wrapping "getLatestLedger: %w" [] (outside services.get_latest_ledger) in
      let read =
        wrapping "getLastIngestedLedger: %w" [] (query services get_last_ingested_ledger) in
      let cursor = get_last_ingested_ledger s.db in
      let (answer, asked, after1, h1) = bind-eq-ok ask _ s n h in
      let (last, found, after2, h2) = bind-eq-ok read _ (ask s).1 n h1 in
      let (value, unread) =
        query-eq-ok services get_last_ingested_ledger (ask s).1 last
          (wrapping-eq-ok _ _ (query services get_last_ingested_ledger) (ask s).1 last found) in
      let same_answer : answer ≡ latest =
        ok-injective
          (sym (wrapping-eq-ok _ _ (outside services.get_latest_ledger) s answer asked) ∙ newest) in
      let same_last : last ≡ cursor = value in
      rw (after1, after2)
        (ingest_after-Stored_from fuel batch_size answer.sequence last latest.sequence cursor n s.db
          (read (ask s).1).1 (cc) same_last unread sized small positive bounded h2)
