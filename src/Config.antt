-- ===== src/Config.antt =====
-- The terminal client's configuration: tui/internal/config/config.go (the types and the methods
-- that other code asks) and horizon.go.
use stellarview_tui.Prelude.{String, Bool, true, false, List, [], ◌∷◌, ◌||◌, str_eq, if◌then◌else◌}
use stellarview_tui.Prelude.Text.{trim_space, to_lower, is_empty}

pub record CacheSettings : Type 0 where
  pub driver : String
  pub path : String

pub record Profile : Type 0 where
  pub name : String
  pub network : String
  pub rpc_endpoint : String
  pub horizon_url : String
  pub indexer_url : String
  pub redis_url : String
  pub backend_mode : String
  pub default_watch : String

pub record Config : Type 0 where
  pub product_name : String
  pub default_profile : String
  pub profiles : List Profile
  pub cache : CacheSettings

abbrev pub no_profile : Profile
no_profile = record {
  name = "";
  network = "";
  rpc_endpoint = "";
  horizon_url = "";
  indexer_url = "";
  redis_url = "";
  backend_mode = "";
  default_watch = "";
}

abbrev pub backend_mode_rpc : String
backend_mode_rpc = "rpc"

abbrev pub backend_mode_hybrid : String
backend_mode_hybrid = "hybrid"

abbrev pub backend_mode_indexer : String
backend_mode_indexer = "indexer"

-- `Config.Profile`
find_profile : String → List Profile → Profile × Bool
find_profile name [] = (no_profile, false)
find_profile name (p ∷ ps) = if str_eq p.name name then (p, true) else find_profile name ps

unfoldable pub profile : Config → String → Profile × Bool
unfolding find_profile
profile c name = find_profile name c.profiles

-- `normalizeBackendMode`
unfoldable pub normalize_backend_mode : String → String
normalize_backend_mode value = to_lower (trim_space value)

-- `NormalizedBackendMode`
unfoldable pub normalized_backend_mode : Profile → String
unfolding normalize_backend_mode
normalized_backend_mode p =
    let value = normalize_backend_mode p.backend_mode in
    if str_eq value backend_mode_rpc
      || str_eq value backend_mode_hybrid
      || str_eq value backend_mode_indexer
    then value
    else if is_empty p.indexer_url
    then backend_mode_rpc
    else backend_mode_indexer

-- `PreferredSource`
unfoldable pub preferred_source : Profile → String
preferred_source p =
    let mode = normalized_backend_mode p in
    if str_eq mode backend_mode_hybrid || str_eq mode backend_mode_indexer then "indexer" else "rpc"

-- `FallbackSource`
unfoldable pub fallback_source : Profile → String
fallback_source p = if str_eq (normalized_backend_mode p) backend_mode_hybrid then "rpc" else ""

-- `ResolveHorizonURL`
unfoldable pub resolve_horizon_url : Profile → String
resolve_horizon_url p =
    let value = trim_space p.horizon_url in
    let network = to_lower (trim_space p.network) in
    if is_empty value
    then if str_eq network "public" || str_eq network "mainnet"
      then "https://horizon.stellar.org"
      else if str_eq network "testnet"
      then "https://horizon-testnet.stellar.org"
      else if str_eq network "futurenet"
      then "https://horizon-futurenet.stellar.org"
      else ""
    else value
