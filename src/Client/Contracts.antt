-- ===== src/Client/Contracts.antt =====
-- Contracts as the read API sends them: tui/internal/backendclient/types.go.
use stellarview_tui.Prelude.{ℕ, String, Bool, Option, List}
use stellarview_tui.Prelude.Int.{ℤ}
use stellarview_tui.Client.Transactions.{TransactionSummary}

pub record ContractEventField : Type 0 where
  pub name : String
  pub type_code : String
  pub location : String
  pub value : String

pub record ContractEventSummary : Type 0 where
  pub contract_id : String
  pub transaction_hash : String
  pub ledger_sequence : ℕ
  pub type_code : ℤ
  pub topic1 : Option String
  pub topic2 : Option String
  pub topic3 : Option String
  pub topic4 : Option String
  pub topics : List String
  pub topics_xdr : Option String
  pub value_xdr : Option String
  pub topics_decoded : Option String
  pub value_decoded : Option String
  pub event_name : String
  pub fields_decoded : List ContractEventField
  pub spec_decode_status : String
  pub decode_status : String
  pub summary : String
  pub created_at : ℤ

pub record ContractDetail : Type 0 where
  pub contract_id : String
  pub wasm_hash : Option String
  pub creator_account : Option String
  pub created_ledger : ℤ
  pub created_at : ℤ
  pub last_modified_ledger : ℤ
  pub contract_type : ℤ
  pub is_sep41_token : Bool
  pub is_sep50_nft : Bool
  pub token_name : Option String
  pub token_symbol : Option String
  pub token_decimals : Option ℤ
  pub contract_spec : Option String
  pub storage_entry_count : ℤ
  pub event_count : ℤ
  pub invocation_count : ℤ
  pub label : Option String
  pub updated_at : ℤ

pub record ContractSpecValue : Type 0 where
  pub name : String
  pub type_code : String

pub record ContractSpecFunction : Type 0 where
  pub name : String
  pub doc : Option String
  pub inputs : List ContractSpecValue
  pub outputs : List String

pub record ContractSpecSchema : Type 0 where
  pub kind : String
  pub name : String
  pub raw : Option String

pub record ContractSpecEvent : Type 0 where
  pub name : String
  pub doc : Option String
  pub prefix_topics : List String
  pub data_format : String
  pub params : List ContractSpecValue

pub record ContractSpec : Type 0 where
  pub contract_id : String
  pub wasm_hash : Option String
  pub available : Bool
  pub decode_status : String
  pub function_count : ℤ
  pub schema_count : ℤ
  pub event_count : ℤ
  pub functions : List ContractSpecFunction
  pub schemas : List ContractSpecSchema
  pub events : List ContractSpecEvent
  pub raw : Option String
  pub spec_xdr : Option String
  pub updated_at : ℤ

pub record ContractStorageSummary : Type 0 where
  pub contract_id : String
  pub key_decoded : Option String
  pub value_decoded : Option String
  pub key_xdr : String
  pub value_xdr : String
  pub durability : ℤ
  pub durability_label : String
  pub ttl_ledger : Option ℤ
  pub last_modified_ledger : ℤ
  pub updated_at : ℤ
  pub decode_status : String
  pub display_key : String
  pub display_value : String
  pub expiration_proximity : String

pub record ContractEventLookupSnapshot : Type 0 where
  pub parent_contract_id : String
  pub event : ContractEventSummary

pub record ContractStorageLookupSnapshot : Type 0 where
  pub parent_contract_id : String
  pub entry : ContractStorageSummary

pub record ContractLookupResponse : Type 0 where
  pub contract : Option ContractDetail
  pub spec : Option ContractSpec
  pub storage : List ContractStorageSummary
  pub recent_transactions : List TransactionSummary
  pub recent_events : List ContractEventSummary
