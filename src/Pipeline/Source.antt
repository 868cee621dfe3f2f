-- ===== src/Pipeline/Source.antt =====
-- The messages of the RPC node: the structs of tui-indexer/internal/source/rpc.go.
use stellarview_tui.Prelude.{ℕ, String, Bool, Option, List}
use stellarview_tui.Prelude.Int.{ℤ}

pub record LatestLedgerResult : Type 0 where
  pub id : String
  pub sequence : ℕ
  pub close_time : String
  pub header_xdr : String
  pub metadata_xdr : String

pub record Pagination : Type 0 where
  pub cursor : String
  pub limit : ℤ

pub record GetLedgersParams : Type 0 where
  pub start_ledger : ℕ
  pub pagination : Option Pagination

pub record LedgerEntry : Type 0 where
  pub hash : String
  pub sequence : ℕ
  pub ledger_close_time : String
  pub header_xdr : String
  pub metadata_xdr : String

pub record GetLedgersResult : Type 0 where
  pub ledgers : List LedgerEntry
  pub latest_ledger : ℕ
  pub latest_ledger_close_time : ℤ
  pub oldest_ledger : ℕ
  pub oldest_ledger_close_time : ℤ
  pub cursor : String

pub record GetTransactionsParams : Type 0 where
  pub start_ledger : ℕ
  pub pagination : Option Pagination

pub record TransactionEntry : Type 0 where
  pub status : String
  pub application_order : ℤ
  pub fee_bump : Bool
  pub envelope_xdr : String
  pub result_xdr : String
  pub result_meta_xdr : String
  pub diagnostic_events_xdr : List String
  pub ledger : ℕ
  pub created_at : ℤ

pub record GetTransactionsResult : Type 0 where
  pub transactions : List TransactionEntry
  pub latest_ledger : ℕ
  pub latest_ledger_close_timestamp : ℤ
  pub oldest_ledger : ℕ
  pub oldest_ledger_close_timestamp : ℤ
  pub cursor : String
