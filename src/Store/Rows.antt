-- ===== src/Store/Rows.antt =====
-- Rows that the pipelines write: the structs of tui-indexer/internal/store/models.go. A signed
-- integer is a ℤ within its width, a timestamp the ℤ of its nanoseconds, a pointer an Option.
use stellarview_tui.Prelude.{ℕ, String, Bool, Option}
use stellarview_tui.Prelude.Int.{ℤ}

pub record Ledger : Type 0 where
  pub sequence : ℕ
  pub hash : String
  pub prev_hash : String
  pub closed_at : ℤ
  pub total_coins : ℤ
  pub fee_pool : ℤ
  pub base_fee : ℤ
  pub base_reserve : ℤ
  pub max_tx_set_size : ℤ
  pub protocol_version : ℤ
  pub transaction_count : ℤ
  pub operation_count : ℤ
  pub successful_tx_count : ℤ
  pub failed_tx_count : ℤ
  pub tx_set_operation_count : Option ℤ
  pub header_xdr : Option String

pub record Transaction : Type 0 where
  pub hash : String
  pub ledger_sequence : ℕ
  pub application_order : ℤ
  pub account : String
  pub account_muxed : Option String
  pub account_muxed_id : Option ℤ
  pub account_sequence : ℤ
  pub fee_charged : ℤ
  pub max_fee : ℤ
  pub operation_count : ℤ
  pub memo_type : ℤ
  pub memo_text : Option String
  pub memo_hash : Option String
  pub status : ℤ
  pub is_soroban : Bool
  pub soroban_resources : Option String
  pub envelope_xdr : String
  pub result_xdr : String
  pub result_meta_xdr : Option String
  pub fee_meta_xdr : Option String
  pub created_at : ℤ

pub record Operation : Type 0 where
  pub transaction_id : ℤ
  pub transaction_hash : String
  pub application_order : ℤ
  pub type_code : ℤ
  pub type_name : String
  pub source_account : Option String
  pub source_account_muxed : Option String
  pub source_muxed_id : Option ℤ
  pub asset_code : Option String
  pub asset_issuer : Option String
  pub amount : Option String
  pub destination : Option String
  pub destination_muxed : Option String
  pub destination_muxed_id : Option ℤ
  pub contract_id : Option String
  pub function_name : Option String
  pub details : String
  pub created_at : ℤ

pub record TokenEvent : Type 0 where
  pub event_type : ℤ
  pub event_type_name : String
  pub from_address : Option String
  pub from_muxed : Option String
  pub to_address : Option String
  pub to_muxed : Option String
  pub to_muxed_id : Option ℤ
  pub asset_type : ℤ
  pub asset_code : Option String
  pub asset_issuer : Option String
  pub asset_contract_id : Option String
  pub amount : String
  pub amount_formatted : Option String
  pub transaction_hash : String
  pub ledger_sequence : ℕ
  pub operation_index : Option ℤ
  pub created_at : ℤ

pub record ContractEvent : Type 0 where
  pub contract_id : String
  pub transaction_hash : String
  pub ledger_sequence : ℕ
  pub type_code : ℤ
  pub topic1 : Option String
  pub topic2 : Option String
  pub topic3 : Option String
  pub topic4 : Option String
  pub topics_xdr : String
  pub value_xdr : String
  pub topics_decoded : Option String
  pub value_decoded : Option String
  pub created_at : ℤ

pub record DetectedContract : Type 0 where
  pub contract_id : String
  pub creator_account : String
  pub created_ledger : ℕ
  pub created_at : ℤ
