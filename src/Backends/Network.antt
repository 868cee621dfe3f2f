-- ===== src/Backends/Network.antt =====
-- The network backend of tui/internal/networkbackend/backend.go: Horizon and an RPC node, each as
-- what it answers at the time of a call.
pub mod Merge
pub mod Methods
pub mod Answers
pub mod Shapes
pub mod Served
use stellarview_tui.Prelude.{
  ℕ, String, Bool, true, false, not, ◌&&◌, Option, none, some, is_some, List, [], if◌then◌else◌,
}
use stellarview_tui.Prelude.Int.{ℤ}
use stellarview_tui.Prelude.Text.{is_empty, trim_space, ◌+s◌}
use stellarview_tui.Client.Transactions.{
  LedgerSummary, TransactionDetail, TransactionSummary, LiveFeedSummaryResponse,
  LedgerLookupResponse, OperationSummary, TransactionLookupResponse,
}
use stellarview_tui.Client.Accounts.{
  AccountDetail, AccountLookupResponse, AssetHolderSummary, AssetDetail, AssetLookupResponse,
  SearchResponse, TimelineItem,
}
use stellarview_tui.Client.Contracts.{
  ContractEventSummary, ContractDetail, ContractStorageSummary, ContractLookupResponse,
}
use stellarview_tui.Config.{Profile, normalized_backend_mode, resolve_horizon_url}
use stellarview_tui.App.State.{SourceMetadata}
use stellarview_tui.Backends.Interface.{Failure, Reply, replied, failed}

-- The methods of `horizonbackend.Backend` that are called.
pub record Horizon : Type 0 where
  pub search : String → ℤ → Reply SearchResponse
  pub live_feed_summary : Reply LiveFeedSummaryResponse
  pub ledger : ℕ → Reply LedgerLookupResponse
  pub transaction : String → Reply TransactionLookupResponse
  pub account : String → Reply AccountLookupResponse
  pub asset : String → String → Reply AssetLookupResponse
  pub ledgers : ℤ → ℕ → Reply (List LedgerSummary)
  pub ledger_transactions : ℕ → ℤ → ℤ → Reply (List TransactionSummary)
  pub accounts : ℤ → Reply (List AccountDetail)
  pub account_operations : String → ℤ → ℤ → Reply (List OperationSummary)
  pub account_timeline : String → ℤ → ℤ → String → Reply (List TimelineItem)
  pub assets : ℤ → Reply (List AssetDetail)
  pub asset_holders : String → String → ℤ → ℤ → Reply (List AssetHolderSummary)
  pub asset_timeline : String → String → ℤ → ℤ → String → Reply (List TimelineItem)

-- Those of `rpcbackend.Backend`; `EnrichTransaction` changes a response in place, and its error is
-- dropped.
pub record Rpc : Type 0 where
  pub enrich_transaction : TransactionLookupResponse → TransactionLookupResponse
  pub live_feed_summary : Reply LiveFeedSummaryResponse
  pub ledger : ℕ → Reply LedgerLookupResponse
  pub transaction : String → Reply TransactionLookupResponse
  pub account : String → Reply AccountLookupResponse
  pub contract : String → Reply ContractLookupResponse
  pub ledgers : ℤ → ℕ → Reply (List LedgerSummary)
  pub ledger_transactions : ℕ → ℤ → ℤ → Reply (List TransactionSummary)
  pub contract_events : String → ℤ → ℤ → Reply (List ContractEventSummary)
  pub contract_storage : String → ℤ → ℤ → Reply (List ContractStorageSummary)

-- `Backend`
pub record Network : Type 0 where
  pub profile : Profile
  pub rpc : Rpc
  pub horizon : Option Horizon
  pub last_meta : SourceMetadata

-- `combinedLabel`
unfoldable pub combined_label : Profile → Bool → String
combined_label profile has_horizon =
    let rpc_label = trim_space profile.rpc_endpoint in
    let horizon_label = resolve_horizon_url profile in
    if has_horizon && not (is_empty horizon_label) && not (is_empty rpc_label)
    then horizon_label +s " + " +s rpc_label
    else if has_horizon && not (is_empty horizon_label)
    then horizon_label
    else rpc_label

-- `actualSource`
abbrev pub actual_source : Bool → String
actual_source has_horizon = if has_horizon then "horizon+rpc" else "rpc"

-- The metadata that `setMeta` writes.
abbrev pub network_metadata : Profile → Bool → String → String → Bool → String → SourceMetadata
network_metadata profile has_horizon operation actual degraded reason = record {
  mode = normalized_backend_mode profile;
  operation = operation;
  policy = "network: horizon history + rpc soroban/state";
  preferred = "horizon";
  actual = actual;
  label = combined_label profile has_horizon;
  cache_state = "";
  fallback_used = false;
  degraded = degraded;
  degraded_reason = reason;
}

-- `New`, with what `rpcbackend.New` and `horizonbackend.New` give for the profile.
unfoldable pub new_network : Profile → Reply Rpc → Reply Horizon → Reply Network
new_network profile (failed err) opened = failed err
new_network profile (replied rpc) opened =
    let horizon : Option Horizon =
      if is_empty (resolve_horizon_url profile)
      then none
      else elim opened [ replied h ↦ some h | failed err ↦ none ] in
    replied (record {
      profile = profile;
      rpc = rpc;
      horizon = horizon;
      last_meta =
          network_metadata profile (is_some horizon) "" (actual_source (is_some horizon)) false "";
    })

-- `Label`
unfoldable pub label_of_network : Network → String
label_of_network b =
    if is_empty (trim_space b.last_meta.label)
    then combined_label b.profile (is_some b.horizon)
    else b.last_meta.label

-- `setMeta`
abbrev pub set_meta : String → String → Bool → String → Network → Network
set_meta operation actual degraded reason b = record b {
  last_meta = network_metadata b.profile (is_some b.horizon) operation actual degraded reason;
}

-- `errors.New`
abbrev pub new_error : String → Failure
new_error text = record { status = none; text = text }

-- The shapes that the methods of the backend have in common.
module _ {A : Type 0} (operation : String) where
  -- `response, err := …; b.setMeta(…, err != nil, errorText(err)); return response, err`
  unfoldable pub reported : String → Reply A → Network → Reply A × Network
  reported actual (replied response) b = (replied response, set_meta operation actual false "" b)
  reported actual (failed err) b = (failed err, set_meta operation actual true err.text b)

  -- Horizon if it is configured, the RPC node otherwise.
  unfoldable pub either_source :
      (Horizon → Reply A) → (Rpc → Reply A) → Network → Option Horizon → Reply A × Network
  either_source ask_horizon ask_rpc b none = reported "rpc" (ask_rpc b.rpc) b
  either_source ask_horizon ask_rpc b (some horizon) = reported "horizon" (ask_horizon horizon) b

  -- Horizon only, and an error without a change if it is not configured.
  unfoldable pub only_horizon :
      String → (Horizon → Reply A) → Network → Option Horizon → Reply A × Network
  only_horizon missing ask_horizon b none = (failed (new_error missing), b)
  only_horizon missing ask_horizon b (some horizon) = reported "horizon" (ask_horizon horizon) b

  -- The RPC node in place of Horizon, which failed.
  unfoldable pub in_its_place : Failure → Reply A → Network → Reply A × Network
  in_its_place err (replied response) b =
      (replied response, set_meta operation "rpc" true err.text b)
  in_its_place err (failed rpc_err) b = (failed rpc_err, set_meta operation "rpc" true err.text b)

  -- Horizon if it answers, the RPC node in its place if it fails.
  unfoldable pub after_first : Reply A → Reply A → Network → Reply A × Network
  after_first (replied response) rpc_answer b =
      (replied response, set_meta operation "horizon" false "" b)
  after_first (failed err) rpc_answer b = in_its_place err rpc_answer b

  unfoldable pub horizon_first :
      (Horizon → Reply A) → (Rpc → Reply A) → Network → Option Horizon → Reply A × Network
  horizon_first ask_horizon ask_rpc b none = reported "rpc" (ask_rpc b.rpc) b
  horizon_first ask_horizon ask_rpc b (some horizon) =
      after_first (ask_horizon horizon) (ask_rpc b.rpc) b

  -- Both sources, merged with `both` if both answer, and Horizon's answer changed by `alone` if
  -- only it answers.
  module _ (both : A → A → A) (alone : A → A) where
    unfoldable pub after_both : A → Reply A → Network → Reply A × Network
    after_both response (replied rpc_response) b =
        (replied (both response rpc_response), set_meta operation "horizon+rpc" false "" b)
    after_both response (failed rpc_err) b =
        (replied (alone response), set_meta operation "horizon" false "" b)

    unfoldable pub after_horizon : Reply A → Reply A → Network → Reply A × Network
    after_horizon (replied response) rpc_answer b = after_both response rpc_answer b
    after_horizon (failed err) rpc_answer b = in_its_place err rpc_answer b

    unfoldable pub merged_sources :
        (Horizon → Reply A) → (Rpc → Reply A) → Network → Option Horizon → Reply A × Network
    merged_sources ask_horizon ask_rpc b none = reported "rpc" (ask_rpc b.rpc) b
    merged_sources ask_horizon ask_rpc b (some horizon) =
        after_horizon (ask_horizon horizon) (ask_rpc b.rpc) b
