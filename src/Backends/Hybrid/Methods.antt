-- ===== src/Backends/Hybrid/Methods.antt =====
-- The methods of the hybrid backend, each with the name of its operation and the errors of the
-- lists that a source does not implement.
use stellarview_tui.Prelude.{ℕ, String, List}
use stellarview_tui.Prelude.Int.{ℤ}
use stellarview_tui.Client.Transactions.{
  LedgerSummary, TransactionSummary, LiveFeedSummaryResponse, LedgerLookupResponse,
  OperationSummary, TransactionLookupResponse,
}
use stellarview_tui.Client.Accounts.{
  AccountDetail, AccountLookupResponse, AssetHolderSummary, AssetDetail, AssetLookupResponse,
  SearchResponse, TimelineItem,
}
use stellarview_tui.Client.Contracts.{
  ContractEventSummary, ContractDetail, ContractStorageSummary, ContractLookupResponse,
}
use stellarview_tui.Backends.Interface.{
  Reply, Request, Result, search_asked, live_feed_summary_asked, ledger_asked, transaction_asked,
  account_asked, asset_asked, contract_asked, ledgers_asked, ledger_transactions_asked,
  accounts_asked, account_operations_asked, account_timeline_asked, assets_asked,
  asset_holders_asked, asset_timeline_asked, contracts_asked, contract_events_asked,
  contract_storage_asked, contract_invocations_asked, contract_timeline_asked,
}
use stellarview_tui.Backends.Hybrid.{Hybrid, with_fallback, only_primary, list_with_fallback}

-- `Search`
unfoldable pub search : String → ℤ → Hybrid → Reply SearchResponse × Hybrid
search query limit b = with_fallback "search" (λ source. source.search query limit) b

-- `LiveFeedSummary`
unfoldable pub live_feed_summary : Hybrid → Reply LiveFeedSummaryResponse × Hybrid
live_feed_summary b = with_fallback "live-feed" (λ source. source.live_feed_summary) b

-- `Ledger`
unfoldable pub ledger : ℕ → Hybrid → Reply LedgerLookupResponse × Hybrid
ledger sequence b = with_fallback "ledger" (λ source. source.ledger sequence) b

-- `Transaction`
unfoldable pub transaction : String → Hybrid → Reply TransactionLookupResponse × Hybrid
transaction hash b = with_fallback "transaction" (λ source. source.transaction hash) b

-- `Account`
unfoldable pub account : String → Hybrid → Reply AccountLookupResponse × Hybrid
account id b = with_fallback "account" (λ source. source.account id) b

-- `Asset`
unfoldable pub asset : String → String → Hybrid → Reply AssetLookupResponse × Hybrid
asset code issuer b = with_fallback "asset" (λ source. source.asset code issuer) b

-- `Contract`
unfoldable pub contract : String → Hybrid → Reply ContractLookupResponse × Hybrid
contract id b = with_fallback "contract" (λ source. source.contract id) b

-- `Ledgers`
unfoldable pub ledgers : ℤ → ℕ → Hybrid → Reply (List LedgerSummary) × Hybrid
ledgers limit before b =
    list_with_fallback "ledgers" "indexer ledger list is not implemented"
      "rpc ledger list is not implemented" (λ source. source.ledgers limit before) b b.primary.lists

-- `LedgerTransactions`
unfoldable pub ledger_transactions : ℕ → ℤ → ℤ → Hybrid → Reply (List TransactionSummary) × Hybrid
ledger_transactions sequence limit offset b =
    only_primary "ledger-transactions" "indexer ledger transaction list is not implemented"
      (λ source. source.ledger_transactions sequence limit offset) b b.primary.lists

-- `Accounts`
unfoldable pub accounts : ℤ → Hybrid → Reply (List AccountDetail) × Hybrid
accounts limit b =
    only_primary "accounts" "indexer account list is not implemented"
      (λ source. source.accounts limit) b b.primary.lists

-- `AccountOperations`
unfoldable pub account_operations : String → ℤ → ℤ → Hybrid → Reply (List OperationSummary) × Hybrid
account_operations id limit offset b =
    only_primary "account-operations" "indexer account operation list is not implemented"
      (λ source. source.account_operations id limit offset) b b.primary.lists

-- `AccountTimeline`
unfoldable pub account_timeline :
    String → ℤ → ℤ → String → Hybrid → Reply (List TimelineItem) × Hybrid
account_timeline id limit offset category b =
    only_primary "account-timeline" "indexer account timeline is not implemented"
      (λ source. source.account_timeline id limit offset category) b b.primary.lists

-- `Assets`
unfoldable pub assets : ℤ → Hybrid → Reply (List AssetDetail) × Hybrid
assets limit b =
    only_primary "assets" "indexer asset list is not implemented" (λ source. source.assets limit) b
      b.primary.lists

-- `AssetHolders`
unfoldable pub asset_holders :
    String → String → ℤ → ℤ → Hybrid → Reply (List AssetHolderSummary) × Hybrid
asset_holders code issuer limit offset b =
    only_primary "asset-holders" "indexer asset holder list is not implemented"
      (λ source. source.asset_holders code issuer limit offset) b b.primary.lists

-- `AssetTimeline`
unfoldable pub asset_timeline :
    String → String → ℤ → ℤ → String → Hybrid → Reply (List TimelineItem) × Hybrid
asset_timeline code issuer limit offset category b =
    only_primary "asset-timeline" "indexer asset timeline is not implemented"
      (λ source. source.asset_timeline code issuer limit offset category) b b.primary.lists

-- `Contracts`
unfoldable pub contracts : ℤ → Hybrid → Reply (List ContractDetail) × Hybrid
contracts limit b =
    only_primary "contracts" "indexer contract list is not implemented"
      (λ source. source.contracts limit) b b.primary.lists

-- `ContractEvents`
unfoldable pub contract_events :
    String → ℤ → ℤ → Hybrid → Reply (List ContractEventSummary) × Hybrid
contract_events id limit offset b =
    list_with_fallback "contract-events" "indexer contract event list is not implemented"
      "rpc contract event list is not implemented"
      (λ source. source.contract_events id limit offset) b b.primary.lists

-- `ContractStorage`
unfoldable pub contract_storage :
    String → ℤ → ℤ → Hybrid → Reply (List ContractStorageSummary) × Hybrid
contract_storage id limit offset b =
    list_with_fallback "contract-storage" "indexer contract storage list is not implemented"
      "rpc contract storage list is not implemented"
      (λ source. source.contract_storage id limit offset) b b.primary.lists

-- `ContractInvocations`
unfoldable pub contract_invocations :
    String → ℤ → ℤ → Hybrid → Reply (List OperationSummary) × Hybrid
contract_invocations id limit offset b =
    only_primary "contract-invocations" "indexer contract invocation list is not implemented"
      (λ source. source.contract_invocations id limit offset) b b.primary.lists

-- `ContractTimeline`
unfoldable pub contract_timeline :
    String → ℤ → ℤ → String → Hybrid → Reply (List TimelineItem) × Hybrid
contract_timeline id limit offset category b =
    only_primary "contract-timeline" "indexer contract timeline is not implemented"
      (λ source. source.contract_timeline id limit offset category) b b.primary.lists

-- A call of a method by its name.
unfoldable pub ask : (r : Request) → Hybrid → Reply (Result r) × Hybrid
ask (search_asked query limit) b = search query limit b
ask (live_feed_summary_asked) b = live_feed_summary b
ask (ledger_asked sequence) b = ledger sequence b
ask (transaction_asked hash) b = transaction hash b
ask (account_asked id) b = account id b
ask (asset_asked code issuer) b = asset code issuer b
ask (contract_asked id) b = contract id b
ask (ledgers_asked limit before) b = ledgers limit before b
ask (ledger_transactions_asked sequence limit offset) b =
    ledger_transactions sequence limit offset b
ask (accounts_asked limit) b = accounts limit b
ask (account_operations_asked id limit offset) b = account_operations id limit offset b
ask (account_timeline_asked id limit offset category) b =
    account_timeline id limit offset category b
ask (assets_asked limit) b = assets limit b
ask (asset_holders_asked code issuer limit offset) b = asset_holders code issuer limit offset b
ask (asset_timeline_asked code issuer limit offset category) b =
    asset_timeline code issuer limit offset category b
ask (contracts_asked limit) b = contracts limit b
ask (contract_events_asked id limit offset) b = contract_events id limit offset b
ask (contract_storage_asked id limit offset) b = contract_storage id limit offset b
ask (contract_invocations_asked id limit offset) b = contract_invocations id limit offset b
ask (contract_timeline_asked id limit offset category) b =
    contract_timeline id limit offset category b
