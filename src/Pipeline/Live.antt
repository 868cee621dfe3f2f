-- ===== src/Pipeline/Live.antt =====
-- Live ingestion: `LivePipeline` of tui-indexer/internal/pipeline/live.go.
pub mod Progress
pub mod Node
pub mod Complete
mod Reads
pub mod Rounds
pub mod Stall
pub mod Ends
use stellarview_tui.Prelude.{
  ℕ, zero, suc, ◌+◌, ◌-◌, String, Bool, true, false, Option, none, some, List, [], ◌∷◌, ◌++◌, ltb,
  leb, ◌==◌, if◌then◌else◌, length,
}
use stellarview_tui.Prelude.Int.{ℤ, pos, negsuc, ltb_ℤ, leb_ℤ}
use stellarview_tui.Prelude.Text.{is_empty}
use stellarview_tui.Prelude.Words.{u32, sub_u32}
use stellarview_tui.Store.Db.{Db, get_last_ingested_ledger, find_missing_ledger_sequences}
use stellarview_tui.Pipeline.Source.{
  LatestLedgerResult, GetLedgersParams, LedgerEntry, GetLedgersResult, GetTransactionsParams,
  TransactionEntry, GetTransactionsResult, Pagination,
}
use stellarview_tui.Pipeline.Exec.{
  Failure, Result, ok, err, unfinished, Exec, pure, fail, give_up, wrapping, ◌>>=◌, ◌>>◌,
}
use stellarview_tui.Pipeline.Services.{Services, State, Signal, cancelled, ticked, idle, outside}
use stellarview_tui.Pipeline.Ledger.{process_one_ledger}
use stellarview_tui.Pipeline.Batches.{LedgerBatch, contiguous_ledger_batches}

abbrev pub tx_page_limit : ℕ
tx_page_limit = 200

abbrev pub live_gap_scan_window : ℕ
live_gap_scan_window = 5000

abbrev first_page : ℕ → ℤ → GetTransactionsParams
first_page start_ledger limit = record {
  start_ledger = start_ledger;
  pagination = some (record { cursor = ""; limit = limit });
}

abbrev pub ledgers_request : ℕ → ℤ → GetLedgersParams
ledgers_request start_ledger limit = record {
  start_ledger = start_ledger;
  pagination = some (record { cursor = ""; limit = limit });
}

abbrev next_page : String → GetTransactionsParams
next_page cursor = record {
  start_ledger = 0;
  pagination = some (record { cursor = cursor; limit = pos tx_page_limit });
}

-- The ledger of the last transaction, zero if there is none.
last_tx_ledger : List TransactionEntry → ℕ
last_tx_ledger [] = 0
last_tx_ledger (tx ∷ []) = tx.ledger
last_tx_ledger (tx ∷ next ∷ txs) = last_tx_ledger (next ∷ txs)

pub last_sequence : LedgerEntry → List LedgerEntry → ℕ
last_sequence entry [] = entry.sequence
last_sequence entry (next ∷ entries) = last_sequence next entries

-- `txByLedger[sequence]`
unfoldable pub transactions_of : ℕ → List TransactionEntry → List TransactionEntry
transactions_of sequence [] = []
transactions_of sequence (tx ∷ txs) =
    if tx.ledger == sequence
    then tx ∷ transactions_of sequence txs
    else transactions_of sequence txs

-- Where the pagination loop stops: no cursor, a page that is not full, or a page past the range.
unfoldable pub is_last_page : ℕ → GetTransactionsResult → Bool
unfolding last_tx_ledger
is_last_page end_ledger page =
    if is_empty page.cursor
    then true
    else if ltb (length page.transactions) tx_page_limit
    then true
    else ltb end_ledger (last_tx_ledger page.transactions)

-- What the loop of `ingestNewLedgers` asks for at a cursor.
unfoldable pub batch_limit : ℤ → ℕ → ℕ → ℤ
batch_limit batch_size latest cursor =
    let remaining = u32 (sub_u32 latest cursor + 1) in
    if ltb_ℤ (pos remaining) batch_size then pos remaining else batch_size

-- The loop of `ingestNewLedgers`, over the action that processes a batch. It ends when the cursor
-- passes the latest ledger; a batch of no ledgers leaves the cursor where it is.
module _ {S : Type 0} (process_batch : ℕ → ℤ → Exec S ℕ) where
  unfoldable pub one_batch : ℤ → ℕ → ℕ → Exec S ℕ
  one_batch batch_size latest cursor =
      wrapping "processLedgerBatch at %d: %w" (cursor ∷ [])
        (process_batch cursor (batch_limit batch_size latest cursor))

  unfoldable pub ingest_from : ℕ → ℤ → ℕ → ℕ → ℕ → Exec S ℕ
  ingest_from zero batch_size latest cursor total = give_up
  ingest_from (suc fuel) batch_size latest cursor total =
      let more = one_batch batch_size latest cursor >>= λ count.
      ingest_from fuel batch_size latest (u32 (cursor + count)) (total + count) in
      if leb cursor latest then more else pure total

module _ (services : Services) where
  open services use {
    World, get_latest_ledger, get_ledgers, get_transactions, statement_error, signal,
  }

  -- A query reads the database unless it fails.
  pub query_of : {A : Type 0} → (Db → A) → Option Failure → Exec (State World) A
  query_of f none s = (ok (f s.db), s)
  query_of f (some e) s = (err e, s)

  unfoldable pub query : {A : Type 0} → (Db → A) → Exec (State World) A
  unfolding query_of
  query f s =
      let (problem, w) = statement_error s.world in query_of f problem (record s { world = w })

  -- The pages of transactions from the second on, on fuel; gives all of them.
  unfoldable pub paginate :
      ℕ
      → ℕ
      → GetTransactionsResult
      → List TransactionEntry
      → Exec (State World) (List TransactionEntry)
  paginate zero end_ledger page all = give_up
  paginate (suc fuel) end_ledger page all =
      let more =
        wrapping "getTransactions (pagination): %w" []
          (outside (get_transactions (next_page page.cursor)))
        >>= λ next. paginate fuel end_ledger next (all ++ next.transactions) in
      if is_last_page end_ledger page then pure all else more

  -- All transactions of a range, page by page.
  unfoldable pub fetch_transactions : ℕ → ℕ → ℕ → Exec (State World) (List TransactionEntry)
  fetch_transactions page_fuel start_ledger end_ledger = do
    page ←
        wrapping "getTransactions: %w" []
          (outside (get_transactions (first_page start_ledger (pos tx_page_limit))))
    paginate page_fuel end_ledger page page.transactions

  -- The loop over the ledgers of a batch; counts the ledgers processed.
  unfoldable pub process_ledgers :
      Bool → List LedgerEntry → List TransactionEntry → ℕ → Exec (State World) ℕ
  process_ledgers has_publisher [] all processed = pure processed
  process_ledgers has_publisher (entry ∷ entries) all processed =
      wrapping "processLedger %d: %w" (entry.sequence ∷ [])
        (process_one_ledger services true has_publisher entry (transactions_of entry.sequence all))
      >> process_ledgers has_publisher entries all (processed + 1)

  -- From the ledgers that were fetched on.
  unfoldable pub process_fetched : ℕ → Bool → ℕ → List LedgerEntry → Exec (State World) ℕ
  process_fetched page_fuel has_publisher start_ledger [] = pure 0
  process_fetched page_fuel has_publisher start_ledger (entry ∷ entries) = do
    all ← fetch_transactions page_fuel start_ledger (last_sequence entry entries)
    process_ledgers has_publisher (entry ∷ entries) all 0

  unfoldable pub fetch_ledgers : ℕ → ℤ → Exec (State World) GetLedgersResult
  fetch_ledgers start_ledger limit =
      wrapping "getLedgers: %w" [] (outside (get_ledgers (ledgers_request start_ledger limit)))

  -- `processLedgerBatch`
  unfoldable pub process_ledger_batch : ℕ → Bool → ℕ → ℤ → Exec (State World) ℕ
  process_ledger_batch page_fuel has_publisher start_ledger limit = do
    fetched ← fetch_ledgers start_ledger limit
    process_fetched page_fuel has_publisher start_ledger fetched.ledgers

  -- From the latest ledger and the database's cursor on. On the first run ingestion starts at the
  -- latest ledger.
  unfoldable pub ingest_after : ℕ → ℕ → ℤ → Bool → ℕ → ℕ → Exec (State World) ℕ
  ingest_after fuel page_fuel batch_size has_publisher latest last_ingested =
      let last = if last_ingested == 0 then sub_u32 latest 1 else last_ingested in
      if leb latest last
      then pure 0
      else ingest_from (process_ledger_batch page_fuel has_publisher) fuel batch_size latest
          (u32 (last + 1)) 0

  -- `ingestNewLedgers`
  unfoldable pub ingest_new_ledgers : ℕ → ℕ → ℤ → Bool → Exec (State World) ℕ
  ingest_new_ledgers fuel page_fuel batch_size has_publisher = do
    latest ← wrapping "getLatestLedger: %w" [] (outside get_latest_ledger)
    last_ingested ← wrapping "getLastIngestedLedger: %w" [] (query get_last_ingested_ledger)
    ingest_after fuel page_fuel batch_size has_publisher latest.sequence last_ingested

  -- The loop of gap filling over its batches: the first error ends it.
  unfoldable pub fill_batches : ℕ → Bool → List LedgerBatch → Exec (State World) Unit
  fill_batches page_fuel has_publisher [] = pure tt
  fill_batches page_fuel has_publisher (batch ∷ batches) =
      process_ledger_batch page_fuel has_publisher batch.start (pos batch.count)
      >> fill_batches page_fuel has_publisher batches

  abbrev gap_scan_start : ℕ → ℕ
  gap_scan_start last_ingested =
      if ltb live_gap_scan_window last_ingested then last_ingested - live_gap_scan_window + 1 else 1

  unfoldable pub fill_gaps_below : ℕ → ℤ → Bool → ℕ → Exec (State World) Unit
  fill_gaps_below page_fuel batch_size has_publisher last_ingested =
      if last_ingested == 0 then pure tt else do
        let limit = if leb_ℤ batch_size (pos 0) then pos 10 else batch_size
        missing ←
            query (find_missing_ledger_sequences (gap_scan_start last_ingested) last_ingested limit)
        fill_batches page_fuel has_publisher (contiguous_ledger_batches missing limit)

  -- `detectAndFillGaps`: its errors are logged and dropped.
  swallow : Result (Unit {0}) × State World → Result (Unit {0}) × State World
  swallow (err e, s) = (ok tt, s)
  swallow (r, s) = (r, s)

  unfoldable pub detect_and_fill_gaps : ℕ → ℤ → Bool → Exec (State World) Unit
  unfolding swallow
  detect_and_fill_gaps page_fuel batch_size has_publisher s =
      swallow
        ((query get_last_ingested_ledger >>= fill_gaps_below page_fuel batch_size has_publisher) s)
