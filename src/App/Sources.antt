-- ===== src/App/Sources.antt =====
-- Source labels and small helpers of tui/internal/app/model.go.
use stellarview_tui.Prelude.{String, Bool, false, not, List, [], ◌∷◌, ◌&&◌, str_eq, if◌then◌else◌}
use stellarview_tui.Prelude.Int.{ℤ, pos, leb_ℤ, ltb_ℤ, ◌-ℤ◌}
use stellarview_tui.Prelude.Text.{trim_space, is_empty, ◌+s◌}
use stellarview_tui.Config.{
  Profile, profile, normalized_backend_mode, preferred_source, fallback_source, backend_mode_rpc,
}
use stellarview_tui.App.State.{Arg, Message, Status, StatusLevel, SourceMetadata, Model}

abbrev pub status_info : StatusLevel
status_info = "info"

abbrev pub status_warn : StatusLevel
status_warn = "warn"

abbrev pub status_error : StatusLevel
status_error = "error"

abbrev pub message : String → List Arg → Message
message format args = record { format = format; args = args }

abbrev pub status : StatusLevel → String → List Arg → Status
status level format args = record { level = level; message = message format args }

-- `clampIndex`
unfoldable pub clamp_index : ℤ → ℤ → ℤ
clamp_index value count =
    if leb_ℤ count (pos 0)
    then pos 0
    else if ltb_ℤ value (pos 0)
    then pos 0
    else if leb_ℤ count value
    then count -ℤ pos 1
    else value

-- `profileHasDataBackend`
unfoldable pub profile_has_data_backend : Profile → Bool
profile_has_data_backend p =
    not (is_empty (trim_space p.indexer_url) && is_empty (trim_space p.rpc_endpoint))

-- `activeBackendLabel`
unfoldable pub active_backend_label : Profile → String
active_backend_label p =
    if str_eq (normalized_backend_mode p) backend_mode_rpc
    then trim_space p.rpc_endpoint
    else if is_empty (trim_space p.indexer_url)
    then trim_space p.rpc_endpoint
    else trim_space p.indexer_url

-- `sourcePolicy`
unfoldable pub source_policy : String → String → String
source_policy preferred fallback =
    let p = trim_space preferred in
    let f = trim_space fallback in
    if is_empty p
    then "single-source"
    else if is_empty f
    then "single-source: " +s p +s " only; no field merge"
    else "single-source: " +s p +s " -> " +s f +s "; no field merge"

-- `DefaultSourceMetadata`
unfoldable pub default_source_metadata : Profile → String → SourceMetadata
default_source_metadata p operation =
    let preferred = preferred_source p in
    record {
      mode = normalized_backend_mode p;
      operation = trim_space operation;
      policy = source_policy preferred (fallback_source p);
      preferred = preferred;
      actual = preferred;
      label =
          if str_eq preferred "indexer" && not (is_empty (trim_space p.indexer_url))
          then trim_space p.indexer_url
          else trim_space p.rpc_endpoint;
      cache_state = "";
      fallback_used = false;
      degraded = false;
      degraded_reason = "";
    }

-- `valueOrDefault`
unfoldable pub value_or_default : String → String → String
value_or_default value fallback =
    if is_empty (trim_space value) then trim_space fallback else trim_space value

-- `valueOrFallbackSourceLabel`
unfoldable pub value_or_fallback_source_label : SourceMetadata → String → String
value_or_fallback_source_label source fallback =
    if is_empty (trim_space source.label) then trim_space fallback else trim_space source.label

-- `firstSourceMetadata`
unfoldable pub first_source_metadata : List SourceMetadata → Profile → String → SourceMetadata
first_source_metadata [] p operation = default_source_metadata p operation
first_source_metadata (source ∷ sources) p operation = source

-- `firstOptionalString`
unfoldable pub first_optional_string : List String → String
first_optional_string [] = ""
first_optional_string (value ∷ values) = trim_space value

-- The profile in use.
unfoldable pub active_profile : Model → Profile
active_profile m = (profile m.config m.config.default_profile).0
