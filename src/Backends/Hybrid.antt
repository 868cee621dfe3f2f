-- ===== src/Backends/Hybrid.antt =====
-- The hybrid backend of tui/cmd/tui/hybrid_backend.go: the indexer first, and the network when the
-- indexer cannot answer.
pub mod Methods
pub mod Source
use stellarview_tui.Prelude.{String, Bool, true, false, ◌||◌, Option, none, some, if◌then◌else◌}
use stellarview_tui.Prelude.Int.{ℤ, pos, eq_ℤ}
use stellarview_tui.Prelude.Text.{is_empty, trim_space, to_lower, contains, ◌+s◌}
use stellarview_tui.App.State.{SourceMetadata}
use stellarview_tui.Backends.Interface.{Failure, Reply, replied, failed, Lists, Backend}

-- `hybridLookupBackend`
pub record Hybrid : Type 0 where
  pub primary : Backend
  pub fallback : Backend
  pub last_meta : SourceMetadata

-- `labelWithMode`, of a backend that is there
abbrev pub label_with_mode : Backend → String → String
label_with_mode backend mode =
    let label = trim_space backend.label in
    if is_empty label then mode else label +s " (" +s mode +s ")"

-- The fields that all metadata of this backend share.
abbrev pub hybrid_metadata : String → String → String → Bool → Bool → String → SourceMetadata
hybrid_metadata operation actual label fallback_used degraded reason = record {
  mode = "hybrid";
  operation = operation;
  policy = "single-source: indexer -> rpc; no field merge";
  preferred = "indexer";
  actual = actual;
  label = label;
  cache_state = "";
  fallback_used = fallback_used;
  degraded = degraded;
  degraded_reason = reason;
}

-- `newHybridLookupBackend`
abbrev pub new_hybrid_lookup_backend : Backend → Backend → Hybrid
new_hybrid_lookup_backend primary fallback = record {
  primary = primary;
  fallback = fallback;
  last_meta = hybrid_metadata "" "indexer" (label_with_mode primary "hybrid") false false "";
}

-- `Label`
unfoldable pub label_of : Hybrid → String
label_of b =
    if is_empty (trim_space b.last_meta.label)
    then label_with_mode b.primary "hybrid"
    else b.last_meta.label

-- `successSourceMetadata`
abbrev pub success_source_metadata : String → Backend → SourceMetadata
success_source_metadata operation backend =
    hybrid_metadata operation "indexer" (label_with_mode backend "hybrid") false false ""

-- `primaryFailureMetadata`
abbrev pub primary_failure_metadata : String → Backend → Failure → SourceMetadata
primary_failure_metadata operation backend err =
    hybrid_metadata operation "indexer" (label_with_mode backend "hybrid") false true
      ("indexer error: " +s err.text)

-- `fallbackSuccessMetadata`
abbrev pub fallback_success_metadata : String → Backend → Failure → SourceMetadata
fallback_success_metadata operation backend primary_err =
    hybrid_metadata operation "rpc" (label_with_mode backend "rpc fallback") true true
      ("indexer unavailable, used rpc fallback: " +s primary_err.text)

-- `fallbackFailureMetadata`
abbrev pub fallback_failure_metadata : String → Backend → Failure → Failure → SourceMetadata
fallback_failure_metadata operation backend primary_err fallback_err =
    hybrid_metadata operation "rpc" (label_with_mode backend "rpc fallback") true true
      ("indexer failed: " +s primary_err.text +s "; rpc fallback failed: " +s fallback_err.text)

-- `joinFallbackError`: the chain of the error is that of the fallback's.
abbrev pub join_fallback_error : Failure → Failure → Failure
join_fallback_error primary_err fallback_err = record {
  status = fallback_err.status;
  text = "indexer failed: " +s primary_err.text +s "; rpc fallback failed: " +s fallback_err.text;
}

abbrev pub is_fallback_status : ℤ → Bool
is_fallback_status code =
    eq_ℤ code (pos 404)
    || eq_ℤ code (pos 405)
    || eq_ℤ code (pos 501)
    || eq_ℤ code (pos 502)
    || eq_ℤ code (pos 503)
    || eq_ℤ code (pos 504)

abbrev pub is_fallback_text : String → Bool
is_fallback_text message =
    contains message "connection refused"
    || contains message "no such host"
    || contains message "unsupported"
    || contains message "not implemented"

-- `shouldFallbackToRPC`, of an error that is there
unfoldable pub should_fallback_to_rpc : Failure → Bool
should_fallback_to_rpc err = elim err.status [
  | none ↦ is_fallback_text (to_lower err.text)
  | some code ↦ is_fallback_status code
]

-- `errors.New`
abbrev pub new_error : String → Failure
new_error text = record { status = none; text = text }

-- The shapes that the methods of the backend have in common.
module _ {A : Type 0} (operation : String) where
  unfoldable pub after_fallback : Hybrid → Failure → Reply A → Reply A × Hybrid
  after_fallback b err (replied response) = (
    replied response,
    record b { last_meta = fallback_success_metadata operation b.fallback err },
  )
  after_fallback b err (failed fallback_err) = (
    failed (join_fallback_error err fallback_err),
    record b { last_meta = fallback_failure_metadata operation b.fallback err fallback_err },
  )

  abbrev pub primary_failed : Hybrid → Failure → Reply A × Hybrid
  primary_failed b err =
      (failed err, record b { last_meta = primary_failure_metadata operation b.primary err })

  -- What comes after the answer of the primary source, with what the fallback does.
  unfoldable pub after_primary : Hybrid → Reply A → (Failure → Reply A × Hybrid) → Reply A × Hybrid
  after_primary b (replied response) fall =
      (replied response, record b { last_meta = success_source_metadata operation b.primary })
  after_primary b (failed err) fall =
      if should_fallback_to_rpc err then fall err else primary_failed b err

  -- A method of `lookupBackend`.
  abbrev pub with_fallback : (Backend → Reply A) → Hybrid → Reply A × Hybrid
  with_fallback call b =
      after_primary b (call b.primary) (λ err. after_fallback b err (call b.fallback))

  -- What comes after the answer of the indexer to a list that only the indexer has.
  unfoldable pub after_only : Hybrid → Reply A → Reply A × Hybrid
  after_only b (replied response) =
      (replied response, record b { last_meta = success_source_metadata operation b.primary })
  after_only b (failed err) = primary_failed b err

  -- A list that only the indexer has.
  unfoldable pub only_primary :
      String → (Lists → Reply A) → Hybrid → Option Lists → Reply A × Hybrid
  only_primary missing call b none = primary_failed b (new_error missing)
  only_primary missing call b (some primary) = after_only b (call primary)

  -- `fallbackLedgers` and its like
  unfoldable pub list_fallback :
      String → (Lists → Reply A) → Hybrid → Failure → Option Lists → Reply A × Hybrid
  list_fallback missing call b err none = (
    failed err,
    record b { last_meta = fallback_failure_metadata operation b.fallback err (new_error missing) },
  )
  list_fallback missing call b err (some fallback) = after_fallback b err (call fallback)

  -- A list that both sources may have.
  unfoldable pub list_with_fallback :
      String → String → (Lists → Reply A) → Hybrid → Option Lists → Reply A × Hybrid
  list_with_fallback missing missing_rpc call b none =
      list_fallback missing_rpc call b (new_error missing) b.fallback.lists
  list_with_fallback missing missing_rpc call b (some primary) =
      after_primary b (call primary) (λ err. list_fallback missing_rpc call b err b.fallback.lists)
