-- ===== src/App/Lookup.antt =====
-- The lookup pane shows an entity: `UpdateLookup…`, `SetLookup…` and `SetContractDecodeMode` of
-- tui/internal/app/model.go, and `SetLookupSelection` of navigation.go.
use stellarview_tui.Prelude.{String, true, false, some, List, [], ◌∷◌, if◌then◌else◌}
use stellarview_tui.Prelude.Int.{ℤ, pos, ltb_ℤ}
use stellarview_tui.Prelude.Text.{trim_space, is_empty}
use stellarview_tui.Client.Transactions.{
  LedgerLookupResponse, TransactionLookupResponse, OperationLookupSnapshot,
}
use stellarview_tui.Client.Accounts.{AccountLookupResponse, AssetLookupResponse}
use stellarview_tui.Client.Contracts.{
  ContractLookupResponse, ContractEventLookupSnapshot, ContractStorageLookupSnapshot,
}
use stellarview_tui.App.State.{
  text, SourceMetadata, LookupKind, LookupSnapshot, LookupMetadataSnapshot, ContractDecodeMode,
  Model,
}
use stellarview_tui.App.Sources.{
  status, status_info, status_error, first_source_metadata, value_or_default,
  value_or_fallback_source_label, active_profile,
}
use stellarview_tui.App.Monitoring.{no_lookup, screen_lookup}
use stellarview_tui.App.History.{push_history, push_lookup_history}

-- The snapshot of an entity before its payload is put in.
abbrev pub detail : LookupKind → String → SourceMetadata → LookupSnapshot
detail kind query source = record no_lookup {
  query = trim_space query;
  kind = kind;
  backend_url = trim_space source.label;
  source = source;
  state = "ready";
}

-- What every `UpdateLookup…` does with its snapshot.
unfoldable pub show_lookup : LookupSnapshot → String → String → Model → Model
show_lookup snapshot format query m = record (push_history screen_lookup (push_lookup_history m)) {
  current = screen_lookup;
  help_visible = false;
  lookup = record snapshot { selected_section = pos 0; scroll_offset = pos 0 };
  status = status status_info format (
      text (trim_space query)
      ∷ text (value_or_fallback_source_label snapshot.source "backend")
      ∷ []);
}

unfoldable pub resolved_source : List SourceMetadata → LookupKind → Model → SourceMetadata
resolved_source source kind m = first_source_metadata source (active_profile m) kind

-- `UpdateLookupTransaction`
unfoldable pub update_lookup_transaction :
    String → TransactionLookupResponse → List SourceMetadata → Model → Model
update_lookup_transaction query response source m =
    show_lookup
      (record (detail "transaction" query (resolved_source source "transaction" m)) {
        transaction = some response;
      })
      "Loaded transaction %s from %s." query m

-- `UpdateLookupOperation`
unfoldable pub update_lookup_operation :
    String → OperationLookupSnapshot → List SourceMetadata → Model → Model
update_lookup_operation query snapshot source m =
    show_lookup
      (record (detail "operation" query (resolved_source source "operation" m)) {
        operation = some snapshot;
      })
      "Loaded operation %s from %s." query m

-- `UpdateLookupLedger`
unfoldable pub update_lookup_ledger :
    String → LedgerLookupResponse → List SourceMetadata → Model → Model
update_lookup_ledger query response source m =
    show_lookup
      (record (detail "ledger" query (resolved_source source "ledger" m)) {
        ledger = some response;
      })
      "Loaded ledger %s from %s." query m

-- `UpdateLookupAccount`
unfoldable pub update_lookup_account :
    String → AccountLookupResponse → List SourceMetadata → Model → Model
update_lookup_account query response source m =
    show_lookup
      (record (detail "account" query (resolved_source source "account" m)) {
        account = some response;
      })
      "Loaded account %s from %s." query m

-- `UpdateLookupAsset`
unfoldable pub update_lookup_asset :
    String → AssetLookupResponse → List SourceMetadata → Model → Model
update_lookup_asset query response source m =
    show_lookup
      (record (detail "asset" query (resolved_source source "asset" m)) { asset = some response })
      "Loaded asset %s from %s." query m

-- `UpdateLookupContract`
unfoldable pub update_lookup_contract :
    String → ContractLookupResponse → List SourceMetadata → Model → Model
update_lookup_contract query response source m =
    show_lookup
      (record (detail "contract" query (resolved_source source "contract" m)) {
        contract = some response;
        decode_mode = "decoded";
        contract_tab = "overview";
      })
      "Loaded contract %s from %s." query m

abbrev kept_decode_mode : Model → ContractDecodeMode
kept_decode_mode m = if is_empty m.lookup.decode_mode then "decoded" else m.lookup.decode_mode

-- `UpdateLookupEvent`
unfoldable pub update_lookup_event :
    String → ContractEventLookupSnapshot → List SourceMetadata → Model → Model
update_lookup_event query snapshot source m =
    show_lookup
      (record (detail "event" query (resolved_source source "event" m)) {
        event = some snapshot;
        decode_mode = kept_decode_mode m;
      })
      "Loaded event %s from %s." query m

-- `UpdateLookupStorageEntry`
unfoldable pub update_lookup_storage_entry :
    String → ContractStorageLookupSnapshot → List SourceMetadata → Model → Model
update_lookup_storage_entry query snapshot source m =
    show_lookup
      (record (detail "storage" query (resolved_source source "storage" m)) {
        storage_entry = some snapshot;
        decode_mode = kept_decode_mode m;
      })
      "Loaded storage %s from %s." query m

-- `SetLookupMetadata`
unfoldable pub set_lookup_metadata : LookupMetadataSnapshot → Model → Model
set_lookup_metadata metadata m = record m { lookup = record m.lookup { metadata = metadata } }

-- `SetLookupLoading`
unfoldable pub set_lookup_loading : LookupKind → String → List SourceMetadata → Model → Model
set_lookup_loading kind query source m =
    let found = resolved_source source kind m in
    record m {
      current = screen_lookup;
      help_visible = false;
      lookup = record (detail kind query found) { state = "loading" };
      status = status status_info "Loading %s %s via %s." (
          text kind
          ∷ text (trim_space query)
          ∷ text (value_or_fallback_source_label found "backend")
          ∷ []);
    }

-- `SetLookupError`
unfoldable pub set_lookup_error : LookupKind → String → String → List SourceMetadata → Model → Model
set_lookup_error kind query error source m =
    let found = resolved_source source kind m in
    record (push_history screen_lookup m) {
      current = screen_lookup;
      help_visible = false;
      lookup = record no_lookup {
        query = trim_space query;
        kind = kind;
        source = record found {
          cache_state = "";
          degraded = true;
          degraded_reason = value_or_default found.degraded_reason error;
        };
        state = "error";
        error = error;
      };
      status =
          status status_error "Lookup failed for %s %s: %v"
            (text kind ∷ text (trim_space query) ∷ text error ∷ []);
    }

non_negative : ℤ → ℤ
non_negative n = if ltb_ℤ n (pos 0) then pos 0 else n

-- `SetLookupSelection`
unfoldable pub set_lookup_selection : ℤ → ℤ → Model → Model
unfolding non_negative
set_lookup_selection section offset m = record m {
  lookup = record m.lookup {
    selected_section = non_negative section;
    scroll_offset = non_negative offset;
  };
}
