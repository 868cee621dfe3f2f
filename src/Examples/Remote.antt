-- ===== src/Examples/Remote.antt =====
-- The theorems on the backends at concrete sources.
use stellarview_tui.Prelude.{◌≡◌, refl, ◌&&◌, ◌||◌, false, none, some, []}
use stellarview_tui.Prelude.Int.{pos}
use stellarview_tui.Prelude.Text.{contains, to_lower, trim_space}
use stellarview_tui.Config.{Profile, no_profile}
use stellarview_tui.Client.Accounts.{AccountLookupResponse}
use stellarview_tui.Backends.Interface.{
  Failure, Reply, replied, failed, Lists, Backend, account_asked, accounts_asked, operation_of,
  direct,
}
use stellarview_tui.Backends.Hybrid.{
  Hybrid, after_primary, should_fallback_to_rpc, after_fallback, new_hybrid_lookup_backend,
}
use stellarview_tui.Backends.Hybrid.Methods.{ask, account}
use stellarview_tui.Backends.Hybrid.Source.{IsHonest, ask-IsHonest}
use stellarview_tui.Backends.Network.{Rpc, Network, only_horizon, network_metadata}
use stellarview_tui.Backends.Network.Methods.{ask as ask_network, accounts}
use stellarview_tui.Backends.Network.Answers.{horizon_direct, rpc_direct, way_of, IsReported}
use stellarview_tui.Backends.Network.Served.{ask-IsReported}
use stellarview_tui.Backends.Open.{
  open_lookup_backend, works, has_indexer, open_lookup_backend-works,
}

abbrev refused : Failure
refused = record { status = none; text = "dial tcp: connection refused" }

abbrev silent_lists : Failure → Lists
silent_lists err = record {
  ledgers = λ limit before. failed err;
  ledger_transactions = λ sequence limit offset. failed err;
  accounts = λ limit. failed err;
  account_operations = λ id limit offset. failed err;
  account_timeline = λ id limit offset category. failed err;
  assets = λ limit. failed err;
  asset_holders = λ code issuer limit offset. failed err;
  asset_timeline = λ code issuer limit offset category. failed err;
  contracts = λ limit. failed err;
  contract_events = λ id limit offset. failed err;
  contract_storage = λ id limit offset. failed err;
  contract_invocations = λ id limit offset. failed err;
  contract_timeline = λ id limit offset category. failed err;
}

-- A source that fails at every call.
abbrev silent : Failure → Backend
silent err = record {
  label = "https://node";
  lists = some (silent_lists err);
  search = λ query limit. failed err;
  live_feed_summary = failed err;
  ledger = λ sequence. failed err;
  transaction = λ hash. failed err;
  account = λ id. failed err;
  asset = λ code issuer. failed err;
  contract = λ id. failed err;
}

abbrev empty_account : AccountLookupResponse
empty_account = record {
  account = none;
  trustlines = [];
  signers = [];
  recent_transactions = [];
  recent_operations = [];
}

abbrev answering : Backend
answering = record (silent refused) { account = λ id. replied empty_account }

abbrev hybrid : Hybrid
hybrid = new_hybrid_lookup_backend (silent refused) answering

ask-IsHonest_example :
    IsHonest
      (operation_of (account_asked "GA"))
      (direct (account_asked "GA") hybrid.primary)
      (direct (account_asked "GA") hybrid.fallback)
      (ask (account_asked "GA") hybrid)
ask-IsHonest_example = ask-IsHonest (account_asked "GA") hybrid

abbrev rpc : Failure → Rpc
rpc err = record {
  enrich_transaction = λ response. response;
  live_feed_summary = failed err;
  ledger = λ sequence. failed err;
  transaction = λ hash. failed err;
  account = λ id. failed err;
  contract = λ id. failed err;
  ledgers = λ limit before. failed err;
  ledger_transactions = λ sequence limit offset. failed err;
  contract_events = λ id limit offset. failed err;
  contract_storage = λ id limit offset. failed err;
}

abbrev network : Network
network = record {
  profile = no_profile;
  rpc = rpc refused;
  horizon = none;
  last_meta = network_metadata no_profile false "ledger" "rpc" false "";
}

ask-IsReported_example :
    IsReported
      (way_of (accounts_asked (pos 5)) network)
      (horizon_direct (accounts_asked (pos 5)) network)
      (rpc_direct (accounts_asked (pos 5)) network)
      (operation_of (accounts_asked (pos 5)))
      network
      (ask_network (accounts_asked (pos 5)) network)
ask-IsReported_example = ask-IsReported (accounts_asked (pos 5)) network

-- The metadata of the call before stay.
stale_metadata : (ask_network (accounts_asked (pos 5)) network).1.last_meta.operation ≡ "ledger"
unfolding ask_network accounts only_horizon
stale_metadata = refl

fallback_asked :
    ((ask (account_asked "GA") hybrid).0 ≡ replied empty_account)
    × ((ask (account_asked "GA") hybrid).1.last_meta.actual ≡ "rpc")
unfolding ask account after_primary should_fallback_to_rpc after_fallback contains to_lower
fallback_asked = (refl, refl)

abbrev down : Reply Backend
down = failed refused

abbrev both_sources : Profile
both_sources = record no_profile { backend_mode = " Hybrid"; indexer_url = "https://indexer" }

open_lookup_backend-works_example :
    works (open_lookup_backend both_sources down (replied answering))
    ≡ (works down || has_indexer both_sources && works (replied answering))
unfolding to_lower trim_space
open_lookup_backend-works_example =
    open_lookup_backend-works both_sources down (replied answering) refl
