-- ===== src/Backends/Network/Served.antt =====
-- Which source the network backend's answers come from, and what its metadata say.
use stellarview_tui.Prelude.{◌≡◌, refl, String, [], Option, none, some}
use stellarview_tui.Prelude.Int.{ℤ}
use stellarview_tui.Backends.Interface.{
  Reply, replied, Request, operation_of, search_asked, live_feed_summary_asked, ledger_asked,
  transaction_asked, account_asked, asset_asked, contract_asked, ledgers_asked,
  ledger_transactions_asked, accounts_asked, account_operations_asked, account_timeline_asked,
  assets_asked, asset_holders_asked, asset_timeline_asked, contracts_asked, contract_events_asked,
  contract_storage_asked, contract_invocations_asked, contract_timeline_asked,
}
use stellarview_tui.Backends.Network.{Horizon, Network}
use stellarview_tui.Backends.Network.Methods.{
  ask, search_in, search, live_feed_summary, ledger, transaction, account, asset, contract, ledgers,
  ledger_transactions, accounts, account_operations, account_timeline, assets, asset_holders,
  asset_timeline, contracts, contract_events, contract_storage, contract_invocations,
  contract_timeline,
}
use stellarview_tui.Backends.Network.Answers.{
  on_horizon, horizon_direct, rpc_direct, plain, way_of, by_none, IsReported,
}
use stellarview_tui.Backends.Network.Shapes.{
  reported-IsReported-rpc, reported-IsReported, unserved-IsReported, either_source-IsReported,
  only_horizon-IsReported, horizon_first-IsReported, merged_sources-IsReported,
}

found_nothing : {A : Type 0} {x y : A} → Path (Reply A) (replied x) (replied y) → some x ≡ some y
found_nothing h = cc

search_in-IsReported :
    (query : String) (limit : ℤ) (b : Network) (horizon : Option Horizon)
    → IsReported
        (plain (some (record { results = [] })))
        (on_horizon horizon (λ source. source.search query limit))
        none
        "search"
        b
        (search_in query limit b horizon)
unfolding search_in on_horizon
search_in-IsReported query limit b none = record {
  value = λ v h. (refl, by_none refl refl (found_nothing h) refl refl);
  error = λ f h. cc;
}
search_in-IsReported query limit b (some horizon) =
    reported-IsReported "search" b _ (horizon.search query limit) none

-- Whatever method of the network backend is called, a value leaves the metadata of its operation and
-- of the source it comes from. It is Horizon's answer if Horizon is configured, serves the request
-- and answers: merged with the RPC node's for a transaction or an account, if that answers too, a
-- transaction then being enriched. It is the RPC node's answer if Horizon is not there, or, for
-- these two and the live feed, if Horizon failed: then the metadata are degraded with the text of
-- that failure. A search without Horizon finds nothing. An error is that of the last source asked,
-- and leaves degraded metadata of its operation with the source and the text of the first failure,
-- except where no source that is there serves the request: then everything stays as it was.
pub ask-IsReported :
    (r : Request) (b : Network)
    → IsReported (way_of r b) (horizon_direct r b) (rpc_direct r b) (operation_of r) b (ask r b)
unfolding way_of ask horizon_direct rpc_direct search live_feed_summary ledger transaction account
    asset contract ledgers ledger_transactions accounts account_operations account_timeline assets
    asset_holders asset_timeline contracts contract_events contract_storage contract_invocations
    contract_timeline
ask-IsReported (search_asked query limit) b = search_in-IsReported query limit b b.horizon
ask-IsReported (live_feed_summary_asked) b =
    horizon_first-IsReported "live-feed" b _ (λ source. source.live_feed_summary) b.horizon
ask-IsReported (ledger_asked sequence) b =
    either_source-IsReported "ledger" b _ (λ source. source.ledger sequence) b.horizon
ask-IsReported (transaction_asked hash) b =
    merged_sources-IsReported "transaction" b _ _ _ (λ source. source.transaction hash) b.horizon
ask-IsReported (account_asked id) b =
    merged_sources-IsReported "account" b _ _ _ (λ source. source.account id) b.horizon
ask-IsReported (asset_asked code issuer) b = only_horizon-IsReported "asset" b _ _ b.horizon
ask-IsReported (contract_asked id) b = reported-IsReported-rpc "contract" b _ _
ask-IsReported (ledgers_asked limit before) b =
    either_source-IsReported "ledgers" b _ (λ source. source.ledgers limit before) b.horizon
ask-IsReported (ledger_transactions_asked sequence limit offset) b =
    either_source-IsReported "ledger-transactions" b _
      (λ source. source.ledger_transactions sequence limit offset) b.horizon
ask-IsReported (accounts_asked limit) b = only_horizon-IsReported "accounts" b _ _ b.horizon
ask-IsReported (account_operations_asked id limit offset) b =
    only_horizon-IsReported "account-operations" b _ _ b.horizon
ask-IsReported (account_timeline_asked id limit offset category) b =
    only_horizon-IsReported "account-timeline" b _ _ b.horizon
ask-IsReported (assets_asked limit) b = only_horizon-IsReported "assets" b _ _ b.horizon
ask-IsReported (asset_holders_asked code issuer limit offset) b =
    only_horizon-IsReported "asset-holders" b _ _ b.horizon
ask-IsReported (asset_timeline_asked code issuer limit offset category) b =
    only_horizon-IsReported "asset-timeline" b _ _ b.horizon
ask-IsReported (contracts_asked limit) b = unserved-IsReported "contracts" b _ _
ask-IsReported (contract_events_asked id limit offset) b =
    reported-IsReported-rpc "contract-events" b _ _
ask-IsReported (contract_storage_asked id limit offset) b =
    reported-IsReported-rpc "contract-storage" b _ _
ask-IsReported (contract_invocations_asked id limit offset) b =
    unserved-IsReported "contract-invocations" b _ _
ask-IsReported (contract_timeline_asked id limit offset category) b =
    unserved-IsReported "contract-timeline" b _ _
