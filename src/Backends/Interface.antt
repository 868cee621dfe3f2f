-- ===== src/Backends/Interface.antt =====
-- The interfaces of a backend (tui/cmd/tui/main.go): what it answers at the time of a call.
use stellarview_tui.Prelude.{ℕ, String, Option, none, some, List}
use stellarview_tui.Prelude.Int.{ℤ}
use stellarview_tui.Client.Transactions.{
  LedgerSummary, TransactionSummary, LiveFeedSummaryResponse, LedgerLookupResponse,
  OperationSummary, TransactionLookupResponse,
}
use stellarview_tui.Client.Accounts.{
  AccountDetail, AccountLookupResponse, AssetHolderSummary, AssetDetail, AssetLookupResponse,
  SearchResponse, TimelineItem,
}
use stellarview_tui.Client.Contracts.{
  ContractEventSummary, ContractDetail, ContractStorageSummary, ContractLookupResponse,
}

-- An error: the status of the `HTTPError` that `errors.As` finds in its chain, and its text.
pub record Failure : Type 0 where
  pub status : Option ℤ
  pub text : String

pub data Reply (A : Type 0) : Type 0 where
  replied : A → Reply A
  failed : Failure → Reply A

-- `explorerListBackend`
pub record Lists : Type 0 where
  pub ledgers : ℤ → ℕ → Reply (List LedgerSummary)
  pub ledger_transactions : ℕ → ℤ → ℤ → Reply (List TransactionSummary)
  pub accounts : ℤ → Reply (List AccountDetail)
  pub account_operations : String → ℤ → ℤ → Reply (List OperationSummary)
  pub account_timeline : String → ℤ → ℤ → String → Reply (List TimelineItem)
  pub assets : ℤ → Reply (List AssetDetail)
  pub asset_holders : String → String → ℤ → ℤ → Reply (List AssetHolderSummary)
  pub asset_timeline : String → String → ℤ → ℤ → String → Reply (List TimelineItem)
  pub contracts : ℤ → Reply (List ContractDetail)
  pub contract_events : String → ℤ → ℤ → Reply (List ContractEventSummary)
  pub contract_storage : String → ℤ → ℤ → Reply (List ContractStorageSummary)
  pub contract_invocations : String → ℤ → ℤ → Reply (List OperationSummary)
  pub contract_timeline : String → ℤ → ℤ → String → Reply (List TimelineItem)

-- `lookupBackend`, with `explorerListBackend` where the backend implements that too.
pub record Backend : Type 0 where
  pub label : String
  pub lists : Option Lists
  pub search : String → ℤ → Reply SearchResponse
  pub live_feed_summary : Reply LiveFeedSummaryResponse
  pub ledger : ℕ → Reply LedgerLookupResponse
  pub transaction : String → Reply TransactionLookupResponse
  pub account : String → Reply AccountLookupResponse
  pub asset : String → String → Reply AssetLookupResponse
  pub contract : String → Reply ContractLookupResponse

-- A call of a backend, by the name of its method.
pub data Request : Type 0 where
  search_asked : String → ℤ → Request
  live_feed_summary_asked : Request
  ledger_asked : ℕ → Request
  transaction_asked : String → Request
  account_asked : String → Request
  asset_asked : String → String → Request
  contract_asked : String → Request
  ledgers_asked : ℤ → ℕ → Request
  ledger_transactions_asked : ℕ → ℤ → ℤ → Request
  accounts_asked : ℤ → Request
  account_operations_asked : String → ℤ → ℤ → Request
  account_timeline_asked : String → ℤ → ℤ → String → Request
  assets_asked : ℤ → Request
  asset_holders_asked : String → String → ℤ → ℤ → Request
  asset_timeline_asked : String → String → ℤ → ℤ → String → Request
  contracts_asked : ℤ → Request
  contract_events_asked : String → ℤ → ℤ → Request
  contract_storage_asked : String → ℤ → ℤ → Request
  contract_invocations_asked : String → ℤ → ℤ → Request
  contract_timeline_asked : String → ℤ → ℤ → String → Request

abbrev pub Result : Request → Type 0
Result (search_asked query limit) = SearchResponse
Result (live_feed_summary_asked) = LiveFeedSummaryResponse
Result (ledger_asked sequence) = LedgerLookupResponse
Result (transaction_asked hash) = TransactionLookupResponse
Result (account_asked id) = AccountLookupResponse
Result (asset_asked code issuer) = AssetLookupResponse
Result (contract_asked id) = ContractLookupResponse
Result (ledgers_asked limit before) = List LedgerSummary
Result (ledger_transactions_asked sequence limit offset) = List TransactionSummary
Result (accounts_asked limit) = List AccountDetail
Result (account_operations_asked id limit offset) = List OperationSummary
Result (account_timeline_asked id limit offset category) = List TimelineItem
Result (assets_asked limit) = List AssetDetail
Result (asset_holders_asked code issuer limit offset) = List AssetHolderSummary
Result (asset_timeline_asked code issuer limit offset category) = List TimelineItem
Result (contracts_asked limit) = List ContractDetail
Result (contract_events_asked id limit offset) = List ContractEventSummary
Result (contract_storage_asked id limit offset) = List ContractStorageSummary
Result (contract_invocations_asked id limit offset) = List OperationSummary
Result (contract_timeline_asked id limit offset category) = List TimelineItem

-- The name of the operation that the source metadata keeps.
abbrev pub operation_of : Request → String
operation_of (search_asked query limit) = "search"
operation_of (live_feed_summary_asked) = "live-feed"
operation_of (ledger_asked sequence) = "ledger"
operation_of (transaction_asked hash) = "transaction"
operation_of (account_asked id) = "account"
operation_of (asset_asked code issuer) = "asset"
operation_of (contract_asked id) = "contract"
operation_of (ledgers_asked limit before) = "ledgers"
operation_of (ledger_transactions_asked sequence limit offset) = "ledger-transactions"
operation_of (accounts_asked limit) = "accounts"
operation_of (account_operations_asked id limit offset) = "account-operations"
operation_of (account_timeline_asked id limit offset category) = "account-timeline"
operation_of (assets_asked limit) = "assets"
operation_of (asset_holders_asked code issuer limit offset) = "asset-holders"
operation_of (asset_timeline_asked code issuer limit offset category) = "asset-timeline"
operation_of (contracts_asked limit) = "contracts"
operation_of (contract_events_asked id limit offset) = "contract-events"
operation_of (contract_storage_asked id limit offset) = "contract-storage"
operation_of (contract_invocations_asked id limit offset) = "contract-invocations"
operation_of (contract_timeline_asked id limit offset category) = "contract-timeline"

-- A method of `explorerListBackend`, where the backend implements it.
unfoldable pub on_lists : {A : Type 0} → Option Lists → (Lists → Reply A) → Option (Reply A)
on_lists none call = none
on_lists (some lists) call = some (call lists)

-- What a backend answers to a request, if it implements the method.
unfoldable pub direct : (r : Request) → Backend → Option (Reply (Result r))
direct (search_asked query limit) b = some (b.search query limit)
direct (live_feed_summary_asked) b = some (b.live_feed_summary)
direct (ledger_asked sequence) b = some (b.ledger sequence)
direct (transaction_asked hash) b = some (b.transaction hash)
direct (account_asked id) b = some (b.account id)
direct (asset_asked code issuer) b = some (b.asset code issuer)
direct (contract_asked id) b = some (b.contract id)
direct (ledgers_asked limit before) b = on_lists b.lists (λ l. l.ledgers limit before)
direct (ledger_transactions_asked sequence limit offset) b =
    on_lists b.lists (λ l. l.ledger_transactions sequence limit offset)
direct (accounts_asked limit) b = on_lists b.lists (λ l. l.accounts limit)
direct (account_operations_asked id limit offset) b =
    on_lists b.lists (λ l. l.account_operations id limit offset)
direct (account_timeline_asked id limit offset category) b =
    on_lists b.lists (λ l. l.account_timeline id limit offset category)
direct (assets_asked limit) b = on_lists b.lists (λ l. l.assets limit)
direct (asset_holders_asked code issuer limit offset) b =
    on_lists b.lists (λ l. l.asset_holders code issuer limit offset)
direct (asset_timeline_asked code issuer limit offset category) b =
    on_lists b.lists (λ l. l.asset_timeline code issuer limit offset category)
direct (contracts_asked limit) b = on_lists b.lists (λ l. l.contracts limit)
direct (contract_events_asked id limit offset) b =
    on_lists b.lists (λ l. l.contract_events id limit offset)
direct (contract_storage_asked id limit offset) b =
    on_lists b.lists (λ l. l.contract_storage id limit offset)
direct (contract_invocations_asked id limit offset) b =
    on_lists b.lists (λ l. l.contract_invocations id limit offset)
direct (contract_timeline_asked id limit offset category) b =
    on_lists b.lists (λ l. l.contract_timeline id limit offset category)
