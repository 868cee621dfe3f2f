-- ===== src/Backends/Network/Methods.antt =====
-- The methods of the network backend.
use stellarview_tui.Prelude.{ℕ, String, false, Option, none, some, List, []}
use stellarview_tui.Prelude.Int.{ℤ}
use stellarview_tui.Client.Transactions.{
  LedgerSummary, TransactionSummary, LiveFeedSummaryResponse, LedgerLookupResponse,
  OperationSummary, TransactionLookupResponse,
}
use stellarview_tui.Client.Accounts.{
  AccountDetail, AccountLookupResponse, AssetHolderSummary, AssetDetail, AssetLookupResponse,
  SearchResponse, TimelineItem,
}
use stellarview_tui.Client.Contracts.{
  ContractEventSummary, ContractDetail, ContractStorageSummary, ContractLookupResponse,
}
use stellarview_tui.Backends.Interface.{
  Reply, replied, failed, Request, Result, search_asked, live_feed_summary_asked, ledger_asked,
  transaction_asked, account_asked, asset_asked, contract_asked, ledgers_asked,
  ledger_transactions_asked, accounts_asked, account_operations_asked, account_timeline_asked,
  assets_asked, asset_holders_asked, asset_timeline_asked, contracts_asked, contract_events_asked,
  contract_storage_asked, contract_invocations_asked, contract_timeline_asked,
}
use stellarview_tui.Backends.Network.{
  Horizon, Network, set_meta, new_error, reported, either_source, only_horizon, horizon_first,
  merged_sources,
}
use stellarview_tui.Backends.Network.Merge.{merge_transaction_lookup, merge_account_lookup}

-- `Search`: nothing is found without Horizon.
unfoldable pub search_in : String → ℤ → Network → Option Horizon → Reply SearchResponse × Network
search_in query limit b none =
    (replied (record { results = [] }), set_meta "search" "rpc" false "" b)
search_in query limit b (some horizon) = reported "search" "horizon" (horizon.search query limit) b

-- `Search`
unfoldable pub search : String → ℤ → Network → Reply SearchResponse × Network
search query limit b = search_in query limit b b.horizon

-- `LiveFeedSummary`
unfoldable pub live_feed_summary : Network → Reply LiveFeedSummaryResponse × Network
live_feed_summary b =
    horizon_first "live-feed" (λ source. source.live_feed_summary)
      (λ source. source.live_feed_summary) b b.horizon

-- `Ledger`
unfoldable pub ledger : ℕ → Network → Reply LedgerLookupResponse × Network
ledger sequence b =
    either_source "ledger" (λ source. source.ledger sequence) (λ source. source.ledger sequence) b
      b.horizon

-- `Transaction`
unfoldable pub transaction : String → Network → Reply TransactionLookupResponse × Network
transaction hash b =
    merged_sources "transaction"
      (λ own other. b.rpc.enrich_transaction (merge_transaction_lookup own other))
      b.rpc.enrich_transaction (λ source. source.transaction hash)
      (λ source. source.transaction hash) b b.horizon

-- `Account`
unfoldable pub account : String → Network → Reply AccountLookupResponse × Network
account id b =
    merged_sources "account" merge_account_lookup (λ own. own) (λ source. source.account id)
      (λ source. source.account id) b b.horizon

-- `Asset`
unfoldable pub asset : String → String → Network → Reply AssetLookupResponse × Network
asset code issuer b =
    only_horizon "asset" "asset lookup requires horizon" (λ source. source.asset code issuer) b
      b.horizon

-- `Contract`
unfoldable pub contract : String → Network → Reply ContractLookupResponse × Network
contract id b = reported "contract" "rpc" (b.rpc.contract id) b

-- `Ledgers`
unfoldable pub ledgers : ℤ → ℕ → Network → Reply (List LedgerSummary) × Network
ledgers limit before b =
    either_source "ledgers" (λ source. source.ledgers limit before)
      (λ source. source.ledgers limit before) b b.horizon

-- `LedgerTransactions`
unfoldable pub ledger_transactions : ℕ → ℤ → ℤ → Network → Reply (List TransactionSummary) × Network
ledger_transactions sequence limit offset b =
    either_source "ledger-transactions" (λ source. source.ledger_transactions sequence limit offset)
      (λ source. source.ledger_transactions sequence limit offset) b b.horizon

-- `Accounts`
unfoldable pub accounts : ℤ → Network → Reply (List AccountDetail) × Network
accounts limit b =
    only_horizon "accounts" "account list requires horizon" (λ source. source.accounts limit) b
      b.horizon

-- `AccountOperations`
unfoldable pub account_operations :
    String → ℤ → ℤ → Network → Reply (List OperationSummary) × Network
account_operations id limit offset b =
    only_horizon "account-operations" "account operation list requires horizon"
      (λ source. source.account_operations id limit offset) b b.horizon

-- `AccountTimeline`
unfoldable pub account_timeline :
    String → ℤ → ℤ → String → Network → Reply (List TimelineItem) × Network
account_timeline id limit offset category b =
    only_horizon "account-timeline" "account timeline requires horizon"
      (λ source. source.account_timeline id limit offset category) b b.horizon

-- `Assets`
unfoldable pub assets : ℤ → Network → Reply (List AssetDetail) × Network
assets limit b =
    only_horizon "assets" "asset list requires horizon" (λ source. source.assets limit) b b.horizon

-- `AssetHolders`
unfoldable pub asset_holders :
    String → String → ℤ → ℤ → Network → Reply (List AssetHolderSummary) × Network
asset_holders code issuer limit offset b =
    only_horizon "asset-holders" "asset holder list requires horizon"
      (λ source. source.asset_holders code issuer limit offset) b b.horizon

-- `AssetTimeline`
unfoldable pub asset_timeline :
    String → String → ℤ → ℤ → String → Network → Reply (List TimelineItem) × Network
asset_timeline code issuer limit offset category b =
    only_horizon "asset-timeline" "asset timeline requires horizon"
      (λ source. source.asset_timeline code issuer limit offset category) b b.horizon

-- `Contracts`
unfoldable pub contracts : ℤ → Network → Reply (List ContractDetail) × Network
contracts limit b = (failed (new_error "contract list is unavailable in network mode"), b)

-- `ContractEvents`
unfoldable pub contract_events :
    String → ℤ → ℤ → Network → Reply (List ContractEventSummary) × Network
contract_events id limit offset b =
    reported "contract-events" "rpc" (b.rpc.contract_events id limit offset) b

-- `ContractStorage`
unfoldable pub contract_storage :
    String → ℤ → ℤ → Network → Reply (List ContractStorageSummary) × Network
contract_storage id limit offset b =
    reported "contract-storage" "rpc" (b.rpc.contract_storage id limit offset) b

-- `ContractInvocations`
unfoldable pub contract_invocations :
    String → ℤ → ℤ → Network → Reply (List OperationSummary) × Network
contract_invocations id limit offset b =
    (failed (new_error "contract invocation list requires tui-indexer"), b)

-- `ContractTimeline`
unfoldable pub contract_timeline :
    String → ℤ → ℤ → String → Network → Reply (List TimelineItem) × Network
contract_timeline id limit offset category b =
    (failed (new_error "contract timeline requires tui-indexer"), b)

-- A call of a method by its name.
unfoldable pub ask : (r : Request) → Network → Reply (Result r) × Network
ask (search_asked query limit) b = search query limit b
ask (live_feed_summary_asked) b = live_feed_summary b
ask (ledger_asked sequence) b = ledger sequence b
ask (transaction_asked hash) b = transaction hash b
ask (account_asked id) b = account id b
ask (asset_asked code issuer) b = asset code issuer b
ask (contract_asked id) b = contract id b
ask (ledgers_asked limit before) b = ledgers limit before b
ask (ledger_transactions_asked sequence limit offset) b =
    ledger_transactions sequence limit offset b
ask (accounts_asked limit) b = accounts limit b
ask (account_operations_asked id limit offset) b = account_operations id limit offset b
ask (account_timeline_asked id limit offset category) b =
    account_timeline id limit offset category b
ask (assets_asked limit) b = assets limit b
ask (asset_holders_asked code issuer limit offset) b = asset_holders code issuer limit offset b
ask (asset_timeline_asked code issuer limit offset category) b =
    asset_timeline code issuer limit offset category b
ask (contracts_asked limit) b = contracts limit b
ask (contract_events_asked id limit offset) b = contract_events id limit offset b
ask (contract_storage_asked id limit offset) b = contract_storage id limit offset b
ask (contract_invocations_asked id limit offset) b = contract_invocations id limit offset b
ask (contract_timeline_asked id limit offset category) b =
    contract_timeline id limit offset category b
