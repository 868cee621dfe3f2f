-- ===== src/Client/Accounts.antt =====
-- Accounts and assets as the read API sends them: tui/internal/backendclient/types.go.
use stellarview_tui.Prelude.{String, Bool, Option, List}
use stellarview_tui.Prelude.Int.{ℤ}
use stellarview_tui.Client.Transactions.{TransactionSummary, OperationSummary}

pub record AccountDetail : Type 0 where
  pub id : String
  pub sequence : ℤ
  pub sequence_ledger : Option ℤ
  pub sequence_time : Option ℤ
  pub balance : String
  pub buying_liabilities : String
  pub selling_liabilities : String
  pub num_subentries : ℤ
  pub home_domain : Option String
  pub flags : ℤ
  pub inflation_dest : Option String
  pub thresholds : Option String
  pub last_modified_ledger : ℤ
  pub sponsor : Option String
  pub num_sponsored : ℤ
  pub num_sponsoring : ℤ
  pub data_entries : Option String
  pub updated_at : ℤ

pub record TrustlineSummary : Type 0 where
  pub asset_type : ℤ
  pub asset_code : String
  pub asset_issuer : String
  pub balance : String
  pub limit_amount : String
  pub buying_liabilities : String
  pub selling_liabilities : String
  pub flags : ℤ
  pub last_modified_ledger : ℤ
  pub sponsor : Option String
  pub updated_at : ℤ

pub record AccountSignerSummary : Type 0 where
  pub signer_key : String
  pub weight : ℤ
  pub type_code : String
  pub sponsor : Option String
  pub last_modified_ledger : ℤ

pub record AccountLookupResponse : Type 0 where
  pub account : Option AccountDetail
  pub trustlines : List TrustlineSummary
  pub signers : List AccountSignerSummary
  pub recent_transactions : List TransactionSummary
  pub recent_operations : List OperationSummary

pub record AssetHolderSummary : Type 0 where
  pub account_id : String
  pub balance : String
  pub limit_amount : String
  pub buying_liabilities : String
  pub selling_liabilities : String
  pub last_modified_ledger : ℤ
  pub sponsor : Option String
  pub updated_at : ℤ

pub record AssetDetail : Type 0 where
  pub asset_type : ℤ
  pub asset_code : String
  pub asset_issuer : String
  pub num_accounts : ℤ
  pub total_supply : String
  pub num_claimable_balances : ℤ
  pub num_liquidity_pools : ℤ
  pub num_contracts : ℤ
  pub flags : ℤ
  pub auth_required : Bool
  pub auth_revocable : Bool
  pub auth_immutable : Bool
  pub clawback_enabled : Bool
  pub home_domain : Option String
  pub toml_name : Option String
  pub toml_description : Option String
  pub sac_contract_id : Option String
  pub updated_at : ℤ

pub record AssetLookupResponse : Type 0 where
  pub asset : Option AssetDetail
  pub top_holders : List AssetHolderSummary
  pub recent_transactions : List TransactionSummary

pub record BackendSearchResult : Type 0 where
  pub kind : String
  pub title : String
  pub description : String
  pub command : String
  pub source : String

pub record SearchResponse : Type 0 where
  pub results : List BackendSearchResult

pub record TimelineItem : Type 0 where
  pub kind : String
  pub title : String
  pub description : String
  pub command : String
  pub occurred_at : String
