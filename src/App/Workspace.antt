-- ===== src/App/Workspace.antt =====
-- The modes of a lookup's detail view: tui/internal/app/contract_workspace.go, and
-- `SetContractDecodeMode` of model.go.
use stellarview_tui.Prelude.{
  ℕ, suc, ◌+◌, ◌-◌, ◌%◌, String, Bool, false, not, ◌&&◌, ◌||◌, Option, none, some, List, [], ◌∷◌,
  ◌++◌, ltb, leb, length, get_elem?, str_eq, is_some, if◌then◌else◌,
}
use stellarview_tui.Prelude.Int.{ℤ, pos, negsuc, ltb_ℤ, eq_ℤ}
use stellarview_tui.Prelude.Text.{trim_space, is_empty}
use stellarview_tui.Client.Contracts.{ContractDetail, ContractSpec, ContractLookupResponse}
use stellarview_tui.Client.Transactions.{OperationLookupSnapshot}
use stellarview_tui.App.State.{
  text, Fallible, failed, done, LookupSnapshot, ContractDecodeMode, ContractWorkspaceTab, Model,
}
use stellarview_tui.App.Sources.{message, status, status_info}

abbrev refuse : Model → String → Fallible (Unit {0}) × Model
refuse m format = (failed (message format []), m)

tab_if : Bool → ContractWorkspaceTab → List ContractWorkspaceTab
tab_if shown tab = if shown then tab ∷ [] else []

spec_available : Option ContractSpec → Bool
spec_available none = false
spec_available (some spec) = spec.available

tabs_of : Option ContractDetail → ContractLookupResponse → List ContractWorkspaceTab
unfolding tab_if spec_available
tabs_of none response = "overview" ∷ []
tabs_of (some contract) response =
    "overview" ∷ []
    ++ tab_if (spec_available response.spec) "spec"
    ++ tab_if (ltb 0 (length response.storage) || ltb_ℤ (pos 0) contract.storage_entry_count)
        "storage"
    ++ tab_if (ltb 0 (length response.recent_events) || ltb_ℤ (pos 0) contract.event_count) "events"
    ++ tab_if (ltb_ℤ (pos 0) contract.invocation_count) "invocations"
    ++ tab_if (ltb 0 (length response.recent_transactions)) "transactions"

-- `AvailableContractWorkspaceTabs`
unfoldable pub available_contract_workspace_tabs :
    Option ContractLookupResponse → List ContractWorkspaceTab
unfolding tabs_of
available_contract_workspace_tabs none = "overview" ∷ []
available_contract_workspace_tabs (some response) = tabs_of response.contract response

has_contract : Option ContractLookupResponse → Bool
has_contract none = false
has_contract (some response) = is_some response.contract

-- `LookupSupportsContractWorkspaceTabs`
unfoldable pub lookup_supports_contract_workspace_tabs : LookupSnapshot → Bool
unfolding has_contract
lookup_supports_contract_workspace_tabs lookup =
    str_eq lookup.state "ready"
    && str_eq lookup.kind "contract"
    && not (is_some lookup.explorer)
    && has_contract lookup.contract

-- `LookupSupportsVisualMode`
unfoldable pub lookup_supports_visual_mode : LookupSnapshot → Bool
lookup_supports_visual_mode lookup =
    str_eq lookup.state "ready"
    && not (is_some lookup.explorer)
    && (str_eq lookup.kind "contract"
        || str_eq lookup.kind "event"
        || str_eq lookup.kind "storage"
        || str_eq lookup.kind "operation"
        || str_eq lookup.kind "transaction"
        || str_eq lookup.kind "account"
        || str_eq lookup.kind "asset"
        || str_eq lookup.kind "ledger")

unfoldable pub invokes : Option OperationLookupSnapshot → Bool
invokes none = false
invokes (some snapshot) = str_eq (trim_space snapshot.operation.type_name) "invoke_host_function"

-- `LookupSupportsDecodeShortcuts`
unfoldable pub lookup_supports_decode_shortcuts : LookupSnapshot → Bool
lookup_supports_decode_shortcuts lookup =
    str_eq lookup.state "ready"
    && not (is_some lookup.explorer)
    && (str_eq lookup.kind "contract"
        || str_eq lookup.kind "event"
        || str_eq lookup.kind "storage"
        || str_eq lookup.kind "operation" && invokes lookup.operation)

-- Where a tab stands, zero if it is not there.
unfoldable pub index_of_tab : ContractWorkspaceTab → List ContractWorkspaceTab → ℕ → ℕ
index_of_tab tab [] i = 0
index_of_tab tab (t ∷ ts) i =
    let later = index_of_tab tab ts (suc i) in if str_eq t tab then i else later

-- index + delta, brought into the range below `count` (which is positive) by adding `count` to a
-- negative number and by `%`.
unfoldable pub wrap_index : ℕ → ℤ → ℕ → ℕ
wrap_index index (pos n) count = (index + n) % count
wrap_index index (negsuc n) count = let back = suc n % count in (index + (count - back)) % count

tab_at : List ContractWorkspaceTab → ℕ → ContractWorkspaceTab
tab_at tabs i = elim (get_elem? tabs i) [ none ↦ "" | some tab ↦ tab ]

-- `CycleContractWorkspaceTab`
unfoldable pub cycle_contract_workspace_tab : ℤ → Model → Fallible (Unit {0}) × Model
unfolding tab_at
cycle_contract_workspace_tab delta m =
    let tabs = available_contract_workspace_tabs m.lookup.contract in
    let current = if is_empty m.lookup.contract_tab then "overview" else m.lookup.contract_tab in
    let tab = tab_at tabs (wrap_index (index_of_tab current tabs 0) delta (length tabs)) in
    if not (lookup_supports_contract_workspace_tabs m.lookup)
    then refuse m "contract tabs are only available from contract detail views"
    else if eq_ℤ delta (pos 0) || leb (length tabs) 1
    then (done tt, m)
    else (
      done tt,
      record m {
        lookup = record m.lookup {
          contract_tab = tab;
          selected_section = pos 0;
          scroll_offset = pos 0;
        };
        status = status status_info "Contract tab: %s." (text tab ∷ []);
      },
    )

-- `ToggleLookupExpandAll`
unfoldable pub toggle_lookup_expand_all : Model → Fallible (Unit {0}) × Model
toggle_lookup_expand_all m =
    let expanded = not m.lookup.expand_all in
    if not (str_eq m.lookup.state "ready") || is_some m.lookup.explorer
    then refuse m "expand mode is only available from entity detail views"
    else (
      done tt,
      record m {
        lookup = record m.lookup { expand_all = expanded };
        status =
            status status_info "Lookup display: %s."
              (text (if expanded then "expanded" else "compact") ∷ []);
      },
    )

-- `ToggleLookupVisualMode`
unfoldable pub toggle_lookup_visual_mode : Model → Fallible (Unit {0}) × Model
toggle_lookup_visual_mode m =
    let on = not m.lookup.visual_mode in
    if lookup_supports_visual_mode m.lookup
    then (
      done tt,
      record m {
        lookup = record m.lookup {
          visual_mode = on;
          selected_section = if on then pos 0 else m.lookup.selected_section;
          scroll_offset = if on then pos 0 else m.lookup.scroll_offset;
        };
        status = status status_info "Visual mode: %s." (text (if on then "on" else "off") ∷ []);
      },
    )
    else refuse m "visual mode is only available from entity detail views"

unfoldable pub set_mode : ContractDecodeMode → Model → Fallible (Unit {0}) × Model
set_mode mode m =
    if str_eq mode "decoded" || str_eq mode "raw"
    then (
      done tt,
      record m {
        lookup = record m.lookup { decode_mode = mode };
        status = status status_info "Contract decode mode: %s." (text mode ∷ []);
      },
    )
    else (failed (message "unknown decode mode %q" (text mode ∷ [])), m)

-- `SetContractDecodeMode`
unfoldable pub set_contract_decode_mode : ContractDecodeMode → Model → Fallible (Unit {0}) × Model
set_contract_decode_mode mode m =
    if str_eq m.lookup.kind "contract"
    then if is_some m.lookup.contract
      then set_mode mode m
      else refuse m "decode mode is only available from a contract lookup"
    else if str_eq m.lookup.kind "event"
    then if is_some m.lookup.event
      then set_mode mode m
      else refuse m "decode mode is only available from a contract event detail view"
    else if str_eq m.lookup.kind "storage"
    then if is_some m.lookup.storage_entry
      then set_mode mode m
      else refuse m "decode mode is only available from a contract storage detail view"
    else if str_eq m.lookup.kind "operation"
    then if not (is_some m.lookup.operation)
      then refuse m "decode mode is only available from a Soroban operation detail view"
      else if invokes m.lookup.operation
      then set_mode mode m
      else refuse m "decode mode is only available for invoke_host_function operations"
    else refuse m
        "decode mode is only available from contract, event, storage, or Soroban operation views"
