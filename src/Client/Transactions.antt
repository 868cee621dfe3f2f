-- ===== src/Client/Transactions.antt =====
-- Ledgers, transactions and operations as the read API sends them:
-- tui/internal/backendclient/types.go. A point in time is its nanoseconds.
use stellarview_tui.Prelude.{ℕ, String, Bool, Option, List}
use stellarview_tui.Prelude.Int.{ℤ}

pub record LedgerSummary : Type 0 where
  pub sequence : ℕ
  pub hash : String
  pub closed_at : ℤ
  pub transaction_count : ℤ
  pub operation_count : ℤ
  pub successful_tx_count : ℤ
  pub failed_tx_count : ℤ

pub record TransactionSummary : Type 0 where
  pub hash : String
  pub ledger_sequence : ℕ
  pub application_order : ℤ
  pub account : String
  pub operation_count : ℤ
  pub status : ℤ
  pub is_soroban : Bool
  pub created_at : ℤ
  pub primary_contract_id : String
  pub primary_asset_code : String
  pub primary_asset_issuer : String
  pub primary_operation_type : String

pub record LiveFeedSummaryResponse : Type 0 where
  pub last_ingested_ledger : ℕ
  pub latest_ledger : Option LedgerSummary
  pub recent_transactions : List TransactionSummary

pub record LedgerLookupResponse : Type 0 where
  pub ledger : Option LedgerSummary
  pub transactions : List TransactionSummary

pub record TransactionDetail : Type 0 where
  pub hash : String
  pub ledger_sequence : ℕ
  pub application_order : ℤ
  pub account : String
  pub account_muxed : Option String
  pub account_muxed_id : Option ℤ
  pub account_sequence : ℤ
  pub fee_charged : ℤ
  pub max_fee : ℤ
  pub operation_count : ℤ
  pub memo_type : ℤ
  pub memo_text : Option String
  pub memo_hash : Option String
  pub status : ℤ
  pub is_soroban : Bool
  pub soroban_resources : Option String
  pub envelope_xdr : String
  pub result_xdr : String
  pub result_meta_xdr : Option String
  pub fee_meta_xdr : Option String
  pub created_at : ℤ

pub record EffectSummary : Type 0 where
  pub transaction_hash : String
  pub type_code : ℤ
  pub type_name : String
  pub account : String
  pub details : String
  pub created_at : ℤ

pub record OperationSummary : Type 0 where
  pub transaction_hash : String
  pub application_order : ℤ
  pub type_code : ℤ
  pub type_name : String
  pub source_account : Option String
  pub source_account_muxed : Option String
  pub source_muxed_id : Option ℤ
  pub asset_code : Option String
  pub asset_issuer : Option String
  pub amount : Option String
  pub destination : Option String
  pub destination_muxed : Option String
  pub destination_muxed_id : Option ℤ
  pub contract_id : Option String
  pub function_name : Option String
  pub details : String
  pub created_at : ℤ

pub record TransactionLookupResponse : Type 0 where
  pub transaction : Option TransactionDetail
  pub operations : List OperationSummary
  pub effects : List EffectSummary

pub record OperationLookupSnapshot : Type 0 where
  pub parent_transaction_hash : String
  pub operation : OperationSummary
