-- ===== src/Backends/Open.antt =====
-- The choice of a backend for a profile, and the metadata of its answers: tui/cmd/tui/main.go.
use stellarview_tui.Prelude.{
  ◌≡◌, refl, String, Bool, true, false, not, ◌&&◌, ◌||◌, Option, none, some, inl, inr, eq_iff,
  str_eq, if◌then◌else◌, Bool-cases,
}
use stellarview_tui.Prelude.Text.{is_empty, trim_space, to_lower}
use stellarview_tui.Config.{Profile, backend_mode_rpc, backend_mode_hybrid}
use stellarview_tui.App.State.{SourceMetadata}
use stellarview_tui.App.Sources.{default_source_metadata}
use stellarview_tui.Backends.Interface.{Reply, replied, failed, Backend}
use stellarview_tui.Backends.Hybrid.{Hybrid, new_hybrid_lookup_backend}

-- What a lookup of the program is asked of: one backend, or the hybrid of two.
pub data Opened : Type 0 where
  single : Backend → Opened
  combined : Hybrid → Opened

abbrev pub alone : Reply Backend → Reply Opened
alone (replied backend) = replied (single backend)
alone (failed err) = failed err

-- The hybrid mode with an URL of the indexer, with what `networkbackend.New` and
-- `backendclient.New` give.
unfoldable pub open_hybrid : Reply Backend → Reply Backend → Reply Opened
open_hybrid network (failed client_err) = alone network
open_hybrid (failed network_err) (replied client) = replied (single client)
open_hybrid (replied network) (replied client) =
    replied (combined (new_hybrid_lookup_backend client network))

abbrev pub backend_mode : Profile → String
backend_mode profile = to_lower (trim_space profile.backend_mode)

abbrev pub has_indexer : Profile → Bool
has_indexer profile = not (is_empty (trim_space profile.indexer_url))

-- `openLookupBackend`
unfoldable pub open_lookup_backend : Profile → Reply Backend → Reply Backend → Reply Opened
open_lookup_backend profile network client =
    if str_eq (backend_mode profile) backend_mode_rpc
    then alone network
    else if str_eq (backend_mode profile) backend_mode_hybrid
    then if has_indexer profile then open_hybrid network client else alone network
    else if has_indexer profile
    then alone client
    else alone network

abbrev pub or_base : String → String → String
or_base value base = if is_empty value then base else value

-- `sourceMetadataFor`, with what the backend gives if it keeps metadata, and its label.
unfoldable pub source_metadata_for :
    Profile → String → Option SourceMetadata → String → SourceMetadata
source_metadata_for profile operation none label =
    record (default_source_metadata profile operation) { label = trim_space label }
source_metadata_for profile operation (some meta) label =
    let base = default_source_metadata profile operation in
    record meta {
      mode = or_base meta.mode base.mode;
      operation = or_base meta.operation base.operation;
      policy = or_base meta.policy base.policy;
      preferred = or_base meta.preferred base.preferred;
      actual = or_base meta.actual base.actual;
      label = or_base meta.label base.label;
    }

abbrev pub works : {A : Type 0} → Reply A → Bool
works (replied a) = true
works (failed err) = false

alone-works : (source : Reply Backend) → works (alone source) ≡ works source
alone-works (replied backend) = refl
alone-works (failed err) = refl

open_hybrid-works :
    (network client : Reply Backend)
    → works (open_hybrid network client) ≡ (works network || works client)
unfolding open_hybrid
open_hybrid-works (replied network) (replied client) = refl
open_hybrid-works (replied network) (failed client_err) = refl
open_hybrid-works (failed network_err) (replied client) = refl
open_hybrid-works (failed network_err) (failed client_err) = refl

-- In the hybrid mode a backend is opened exactly when one of the two sources can be: the network,
-- or the indexer where the profile has its URL.
pub open_lookup_backend-works :
    (profile : Profile) (network client : Reply Backend)
    → str_eq (backend_mode profile) backend_mode_hybrid ≡ true
    → works (open_lookup_backend profile network client)
      ≡ (works network || has_indexer profile && works client)
unfolding open_lookup_backend
open_lookup_backend-works profile network client hybrid =
    let mode = eq_iff (backend_mode profile) backend_mode_hybrid in
    let other : str_eq (backend_mode profile) backend_mode_rpc ≡ false = rw (mode.0 hybrid) refl in
    elim (Bool-cases (has_indexer profile)) [
      | inl there ↦ rw (other, hybrid, there) (open_hybrid-works network client)
      | inr missing ↦ rw (other, hybrid, missing) (go network)
    ]
  where
    go : (source : Reply Backend) → works (alone source) ≡ (works source || false)
    go (replied backend) = refl
    go (failed err) = refl
