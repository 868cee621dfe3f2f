-- ===== src/Pipeline/Services.antt =====
-- What the pipelines use and do not implement: the RPC node, the database server's failures, the
-- context, and the decoders of tui-indexer/internal/transform, whose work is the XDR library's.
-- All of it is a parameter, and the theorems hold for every choice of it.
use stellarview_tui.Prelude.{ℕ, String, Option, List}
use stellarview_tui.Prelude.Int.{ℤ}
use stellarview_tui.Store.Rows.{
  Ledger, Transaction, Operation, TokenEvent, ContractEvent, DetectedContract,
}
use stellarview_tui.Store.Db.{Db}
use stellarview_tui.Pipeline.Source.{
  LatestLedgerResult, GetLedgersParams, LedgerEntry, GetLedgersResult, GetTransactionsParams,
  TransactionEntry, GetTransactionsResult,
}
use stellarview_tui.Pipeline.Exec.{Failure, Result, Exec}

-- What the `select` at the head of a loop finds.
pub data Signal : Type 0 where
  cancelled ticked idle : Signal

pub record Services : Type 1 where
  -- all that changes outside the program
  pub World : Type 0
  -- source.RPCClient
  pub get_latest_ledger : World → Result LatestLedgerResult × World
  pub get_ledgers : GetLedgersParams → World → Result GetLedgersResult × World
  pub get_transactions : GetTransactionsParams → World → Result GetTransactionsResult × World
  -- whether the next database statement fails
  pub statement_error : World → Option Failure × World
  pub signal : World → Signal × World
  -- transform, which decodes XDR; the two enrichments also read contract specs
  pub ledger_from_rpc : LedgerEntry → Result Ledger
  pub transaction_from_rpc : TransactionEntry → Result Transaction
  pub operations_from_rpc : TransactionEntry → Result (List Operation)
  pub enrich_soroban_operations : List Operation → TransactionEntry → World → List Operation × World
  pub token_events_from_ledger_meta : String → Result (List TokenEvent)
  pub contract_events_from_transaction : TransactionEntry → Result (List ContractEvent)
  pub enrich_contract_events : List ContractEvent → World → List ContractEvent × World
  pub detect_new_contracts : String → ℕ → ℤ → Result (List DetectedContract)
  -- source.DecodeMetadataXDR and source.TransactionEntriesFromCloseMeta
  pub decode_metadata_xdr : String → Result String
  pub transaction_entries_from_close_meta : String → Result (List TransactionEntry)

-- What a publisher was given.
pub data Published : Type 0 where
  published_ledger : Ledger → Published
  published_transactions : List Transaction → List Operation → Published

pub record State (W : Type 0) : Type 0 where
  pub world : W
  pub db : Db
  pub published : List Published
  -- the contracts whose specs a goroutine was started for
  pub spawned : List DetectedContract

-- A call that leaves the database alone.
abbrev pub outside : {W A : Type 0} → (W → Result A × W) → Exec (State W) A
outside call s = let (r, w) = call s.world in (r, record s { world = w })

-- A decoder has no effect.
abbrev pub pure_call : {W A : Type 0} → Result A → Exec (State W) A
pure_call r s = (r, s)
