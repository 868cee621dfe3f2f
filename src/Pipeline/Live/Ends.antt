-- ===== src/Pipeline/Live/Ends.antt =====
-- A round of live ingestion ends: `ingestNewLedgers` of tui-indexer/internal/pipeline/live.go.
use stellarview_tui.Prelude.{
  ℕ, ◌+◌, ◌-◌, ◌<◌, ◌≡◌, ◌≢◌, sym, ap, ◌∙◌, Bool, true, false, ◌==◌, leb, leb→lt, inl, inr, Option,
  none, some, List, [], ◌∷◌, Bool-cases, arith,
}
use stellarview_tui.Prelude.Int.{ℤ, pos, ◌≤ℤ◌}
use stellarview_tui.Prelude.Words.{u32}
use stellarview_tui.Store.Db.{Db, get_last_ingested_ledger}
use stellarview_tui.Pipeline.Source.{LatestLedgerResult, LedgerEntry, TransactionEntry}
use stellarview_tui.Pipeline.Exec.{Failure, ok, unfinished, wrapping}
use stellarview_tui.Pipeline.Exec.Outcome.{ok-injective}
use stellarview_tui.Pipeline.Exec.Inversion.{bind-finishes, wrapping-eq-ok, wrapping-finishes}
use stellarview_tui.Pipeline.Services.{Services, State, outside}
use stellarview_tui.Pipeline.Ledger.{process_one_ledger}
use stellarview_tui.Pipeline.Ledger.Ends.{CallsEnd, process_one_ledger-finishes}
use stellarview_tui.Pipeline.Live.{
  ledgers_request, last_sequence, transactions_of, fetch_ledgers, fetch_transactions,
  process_ledgers, process_fetched, ingest_after, ingest_new_ledgers, query_of, query,
  process_ledger_batch,
}
use stellarview_tui.Pipeline.Live.Reads.{query-eq-ok}
use stellarview_tui.Pipeline.Live.Progress.{ingest_from-finishes}
use stellarview_tui.Pipeline.Live.Node.{AnswersInOrder, process_ledger_batch-Progresses}

module _ (services : Services) where
  open services use {World}

  query_of-finishes :
      {A : Type 0} (f : Db → A) (problem : Option Failure) (s : State World)
      → (query_of services f problem s).0 ≢ unfinished
  unfolding query_of
  query_of-finishes f none s = λ e. cc
  query_of-finishes f (some e) s = λ k. cc

  query-finishes : {A : Type 0} (f : Db → A) (s : State World) → (query services f s).0 ≢ unfinished
  unfolding query
  query-finishes f s =
      let (problem, w) = services.statement_error s.world in
      query_of-finishes f problem (record s { world = w })

-- The node's transactions of a range of ledgers end within a number of pages.
abbrev pub PagesEnd : Services → ℕ → Type 0
PagesEnd services page_fuel =
    (start end : ℕ) (t : State services.World)
    → (fetch_transactions services page_fuel start end t).0 ≢ unfinished

module _ (services : Services) (calls : CallsEnd services) (page_fuel : ℕ)
    (pages : PagesEnd services page_fuel) (has_publisher : Bool) where
  open services use {World}

  process_ledgers-finishes :
      (entries : List LedgerEntry) (all : List TransactionEntry) (processed : ℕ) (s : State World)
      → (process_ledgers services has_publisher entries all processed s).0 ≢ unfinished
  unfolding process_ledgers
  process_ledgers-finishes [] all processed s = λ e. cc
  process_ledgers-finishes (entry ∷ entries) all processed s =
      let txs = transactions_of entry.sequence all in
      let one = process_one_ledger services true has_publisher entry txs in
      bind-finishes _ _ s
        (wrapping-finishes _ _ one s
          (process_one_ledger-finishes services calls.header true has_publisher entry txs s))
        (λ u _. process_ledgers-finishes entries all (processed + 1) _)

  process_fetched-finishes :
      (start : ℕ) (entries : List LedgerEntry) (s : State World)
      → (process_fetched services page_fuel has_publisher start entries s).0 ≢ unfinished
  unfolding process_fetched
  process_fetched-finishes start [] s = λ e. cc
  process_fetched-finishes start (entry ∷ entries) s =
      bind-finishes (fetch_transactions services page_fuel start (last_sequence entry entries)) _ s
        (pages start (last_sequence entry entries) s)
        (λ all _. process_ledgers-finishes (entry ∷ entries) all 0 _)

  -- A batch ends, since the calls and the pages do.
  process_ledger_batch-finishes :
      (start : ℕ) (limit : ℤ) (s : State World)
      → (process_ledger_batch services page_fuel has_publisher start limit s).0 ≢ unfinished
  unfolding process_ledger_batch fetch_ledgers
  process_ledger_batch-finishes start limit s =
      let ask = outside (services.get_ledgers (ledgers_request start limit)) in
      bind-finishes (fetch_ledgers services start limit) _ s
        (wrapping-finishes _ _ ask s (calls.ledgers (ledgers_request start limit) s.world))
        (λ fetched _. process_fetched-finishes start fetched.ledgers _)

module _ (services : Services) (node : AnswersInOrder services) (calls : CallsEnd services)
    (page_fuel : ℕ) (pages : PagesEnd services page_fuel) (has_publisher : Bool) where
  open services use {World}

  ingest_after-finishes :
      (fuel : ℕ) (batch_size : ℤ) (latest last : ℕ) (s : State World)
      → pos 1 ≤ℤ batch_size
      → latest < 4294967295
      → 0 < last
      → latest - last < fuel
      → (ingest_after services fuel page_fuel batch_size has_publisher latest last s).0 ≢ unfinished
  unfolding ingest_after
  ingest_after-finishes fuel batch_size latest last s sized small positive enough =
      let later_run : (last == 0) ≡ false = ground arith in
      elim (Bool-cases (leb latest last)) [
        | inl idle ↦ rw (later_run, idle) (λ e. cc)
        | inr behind ↦
            let above = leb→lt latest last behind in
            let next : u32 (last + 1) ≡ last + 1 = omega arith in
            rw (later_run, behind, next)
              (ingest_from-finishes (process_ledger_batch services page_fuel has_publisher)
                (process_ledger_batch-Progresses services page_fuel has_publisher node) batch_size
                latest small sized
                (process_ledger_batch-finishes services calls page_fuel pages has_publisher) fuel
                (last + 1) 0 s (omega arith))
      ]

  -- Against a node that answers requests for some ledgers in order, when every call of the node and
  -- of the decoders returns, the transactions of a range end within `page_fuel` pages, the batch
  -- size is positive and the cursor of the database is not zero, fuel above the number of ledgers from the cursor to the latest one (of
  -- uint32, below the last) is enough for a round of `ingest_new_ledgers` to end.
  pub ingest_new_ledgers-finishes :
      (fuel : ℕ) (batch_size : ℤ) (latest : LatestLedgerResult) (s : State World)
      → pos 1 ≤ℤ batch_size
      → (services.get_latest_ledger s.world).0 ≡ ok latest
      → latest.sequence < 4294967295
      → 0 < get_last_ingested_ledger s.db
      → latest.sequence - get_last_ingested_ledger s.db < fuel
      → (ingest_new_ledgers services fuel page_fuel batch_size has_publisher s).0 ≢ unfinished
  unfolding ingest_new_ledgers
  ingest_new_ledgers-finishes fuel batch_size latest s sized newest small positive enough =
      let call = outside services.get_latest_ledger in
      let find = query services get_last_ingested_ledger in
      let ask = wrapping "getLatestLedger: %w" [] call in
      let read = wrapping "getLastIngestedLedger: %w" [] find in
      bind-finishes ask _ s (wrapping-finishes _ _ call s (rw newest (λ e. cc))) λ answer asked.
        let same : answer ≡ latest =
          ok-injective (sym (wrapping-eq-ok _ _ call s answer asked) ∙ newest) in
        let t = (ask s).1 in
        bind-finishes read _ t (wrapping-finishes _ _ find t (query-finishes services _ t))
          λ last found.
            let cursor : last ≡ get_last_ingested_ledger s.db =
              (query-eq-ok services get_last_ingested_ledger t last
                (wrapping-eq-ok _ _ find t last found)).0 in
            let sequence : answer.sequence ≡ latest.sequence =
              ap (λ (l : LatestLedgerResult). l.sequence) same in
            ingest_after-finishes fuel batch_size answer.sequence last _ sized (omega arith)
              (omega arith) (omega arith)
