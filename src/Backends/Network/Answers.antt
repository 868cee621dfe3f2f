-- ===== src/Backends/Network/Answers.antt =====
-- What the two sources of the network backend answer to a request, and what a call reports of it.
use stellarview_tui.Prelude.{◌≡◌, String, Bool, true, false, ◌⊎◌, Option, none, some, []}
use stellarview_tui.App.State.{SourceMetadata}
use stellarview_tui.Backends.Interface.{
  Failure, Reply, replied, failed, Request, Result, search_asked, live_feed_summary_asked,
  ledger_asked, transaction_asked, account_asked, asset_asked, contract_asked, ledgers_asked,
  ledger_transactions_asked, accounts_asked, account_operations_asked, account_timeline_asked,
  assets_asked, asset_holders_asked, asset_timeline_asked, contracts_asked, contract_events_asked,
  contract_storage_asked, contract_invocations_asked, contract_timeline_asked,
}
use stellarview_tui.Backends.Network.{Horizon, Network}
use stellarview_tui.Backends.Network.Merge.{merge_transaction_lookup, merge_account_lookup}

unfoldable pub on_horizon : {A : Type 0} → Option Horizon → (Horizon → Reply A) → Option (Reply A)
on_horizon none call = none
on_horizon (some horizon) call = some (call horizon)

-- What Horizon answers to a request, if it is configured and serves it.
unfoldable pub horizon_direct : (r : Request) → Network → Option (Reply (Result r))
horizon_direct (search_asked query limit) b =
    on_horizon b.horizon (λ source. source.search query limit)
horizon_direct (live_feed_summary_asked) b =
    on_horizon b.horizon (λ source. source.live_feed_summary)
horizon_direct (ledger_asked sequence) b = on_horizon b.horizon (λ source. source.ledger sequence)
horizon_direct (transaction_asked hash) b = on_horizon b.horizon (λ source. source.transaction hash)
horizon_direct (account_asked id) b = on_horizon b.horizon (λ source. source.account id)
horizon_direct (asset_asked code issuer) b =
    on_horizon b.horizon (λ source. source.asset code issuer)
horizon_direct (contract_asked id) b = none
horizon_direct (ledgers_asked limit before) b =
    on_horizon b.horizon (λ source. source.ledgers limit before)
horizon_direct (ledger_transactions_asked sequence limit offset) b =
    on_horizon b.horizon (λ source. source.ledger_transactions sequence limit offset)
horizon_direct (accounts_asked limit) b = on_horizon b.horizon (λ source. source.accounts limit)
horizon_direct (account_operations_asked id limit offset) b =
    on_horizon b.horizon (λ source. source.account_operations id limit offset)
horizon_direct (account_timeline_asked id limit offset category) b =
    on_horizon b.horizon (λ source. source.account_timeline id limit offset category)
horizon_direct (assets_asked limit) b = on_horizon b.horizon (λ source. source.assets limit)
horizon_direct (asset_holders_asked code issuer limit offset) b =
    on_horizon b.horizon (λ source. source.asset_holders code issuer limit offset)
horizon_direct (asset_timeline_asked code issuer limit offset category) b =
    on_horizon b.horizon (λ source. source.asset_timeline code issuer limit offset category)
horizon_direct (contracts_asked limit) b = none
horizon_direct (contract_events_asked id limit offset) b = none
horizon_direct (contract_storage_asked id limit offset) b = none
horizon_direct (contract_invocations_asked id limit offset) b = none
horizon_direct (contract_timeline_asked id limit offset category) b = none

-- What the RPC node answers to a request, if it serves it.
unfoldable pub rpc_direct : (r : Request) → Network → Option (Reply (Result r))
rpc_direct (search_asked query limit) b = none
rpc_direct (live_feed_summary_asked) b = some (b.rpc.live_feed_summary)
rpc_direct (ledger_asked sequence) b = some (b.rpc.ledger sequence)
rpc_direct (transaction_asked hash) b = some (b.rpc.transaction hash)
rpc_direct (account_asked id) b = some (b.rpc.account id)
rpc_direct (asset_asked code issuer) b = none
rpc_direct (contract_asked id) b = some (b.rpc.contract id)
rpc_direct (ledgers_asked limit before) b = some (b.rpc.ledgers limit before)
rpc_direct (ledger_transactions_asked sequence limit offset) b =
    some (b.rpc.ledger_transactions sequence limit offset)
rpc_direct (accounts_asked limit) b = none
rpc_direct (account_operations_asked id limit offset) b = none
rpc_direct (account_timeline_asked id limit offset category) b = none
rpc_direct (assets_asked limit) b = none
rpc_direct (asset_holders_asked code issuer limit offset) b = none
rpc_direct (asset_timeline_asked code issuer limit offset category) b = none
rpc_direct (contracts_asked limit) b = none
rpc_direct (contract_events_asked id limit offset) b = some (b.rpc.contract_events id limit offset)
rpc_direct (contract_storage_asked id limit offset) b =
    some (b.rpc.contract_storage id limit offset)
rpc_direct (contract_invocations_asked id limit offset) b = none
rpc_direct (contract_timeline_asked id limit offset category) b = none

-- How a request uses the sources that serve it: what it makes of the answers of both, if it asks
-- both; what it makes of Horizon's answer alone; whether it asks the RPC node in place of Horizon when
-- that fails; and what it gives when no source serves it, if not an error.
pub record Way (A : Type 0) : Type 0 where
  pub both : Option (A → A → A)
  pub alone : A → A
  pub in_place : Bool
  pub nothing : Option A

-- One source, Horizon if it is there.
abbrev pub plain : {A : Type 0} → Option A → Way A
plain nothing = record { both = none; alone = λ own. own; in_place = false; nothing = nothing }

-- Horizon, and the RPC node in its place.
abbrev pub in_turn : {A : Type 0} → Way A
in_turn = record { both = none; alone = λ own. own; in_place = true; nothing = none }

-- Both sources.
abbrev pub together : {A : Type 0} → (A → A → A) → (A → A) → Way A
together both alone = record { both = some both; alone = alone; in_place = true; nothing = none }

-- A transaction is merged and enriched by the RPC node, an account is merged, the live feed has the
-- RPC node in Horizon's place, and a search without Horizon finds nothing.
unfoldable pub way_of : (r : Request) → Network → Way (Result r)
way_of (search_asked query limit) b = plain (some (record { results = [] }))
way_of (live_feed_summary_asked) b = in_turn
way_of (transaction_asked hash) b =
    together (λ own other. b.rpc.enrich_transaction (merge_transaction_lookup own other))
      b.rpc.enrich_transaction
way_of (account_asked id) b = together merge_account_lookup (λ own. own)
way_of r b = plain none

module _ {A : Type 0} (way : Way A) (horizon rpc : Option (Reply A)) where
  -- Where a value comes from, and what the metadata say of it.
  pub data ServedBy (value : A) (m : SourceMetadata) : Type 0 where
    by_horizon :
        (own : A)
        → horizon ≡ some (replied own)
        → value ≡ way.alone own
        → (way.both ≡ none) ⊎ ((err : Failure) × (rpc ≡ some (failed err)))
        → m.actual ≡ "horizon"
        → m.degraded ≡ false
        → ServedBy value m
    by_both :
        (merge : A → A → A) (own other : A)
        → way.both ≡ some merge
        → horizon ≡ some (replied own)
        → rpc ≡ some (replied other)
        → value ≡ merge own other
        → m.actual ≡ "horizon+rpc"
        → m.degraded ≡ false
        → ServedBy value m
    by_rpc_instead :
        (err : Failure)
        → horizon ≡ some (failed err)
        → way.in_place ≡ true
        → rpc ≡ some (replied value)
        → m.actual ≡ "rpc"
        → m.degraded ≡ true
        → m.degraded_reason ≡ err.text
        → ServedBy value m
    by_rpc :
        horizon ≡ none
        → rpc ≡ some (replied value)
        → m.actual ≡ "rpc"
        → m.degraded ≡ false
        → ServedBy value m
    by_none :
        horizon ≡ none
        → rpc ≡ none
        → way.nothing ≡ some value
        → m.actual ≡ "rpc"
        → m.degraded ≡ false
        → ServedBy value m

  -- Where an error comes from, and the source and the reason that the metadata give.
  pub data FailedBy (err : Failure) (m : SourceMetadata) : Type 0 where
    horizon_failed :
        horizon ≡ some (failed err)
        → way.in_place ≡ false
        → m.actual ≡ "horizon"
        → m.degraded_reason ≡ err.text
        → FailedBy err m
    rpc_failed :
        horizon ≡ none
        → rpc ≡ some (failed err)
        → m.actual ≡ "rpc"
        → m.degraded_reason ≡ err.text
        → FailedBy err m
    both_failed :
        (first : Failure)
        → horizon ≡ some (failed first)
        → way.in_place ≡ true
        → rpc ≡ some (failed err)
        → m.actual ≡ "rpc"
        → m.degraded_reason ≡ first.text
        → FailedBy err m

  -- A value leaves the metadata of its operation and its source. An error leaves those of its
  -- operation, degraded with a reason, or everything as it was, if no source that is there serves
  -- the request.
  pub record IsReported (operation : String) (before : Network) (result : Reply A × Network)
      : Type 0 where
    pub value :
        (v : A)
        → result.0 ≡ replied v
        → (result.1.last_meta.operation ≡ operation) × ServedBy v result.1.last_meta
    pub error :
        (err : Failure)
        → result.0 ≡ failed err
        → ((result.1.last_meta.operation ≡ operation)
            × (result.1.last_meta.degraded ≡ true)
            × FailedBy err result.1.last_meta)
          ⊎ ((result.1 ≡ before) × (horizon ≡ none) × (rpc ≡ none))
