-- ===== src/App/State.antt =====
-- The state of the terminal client: the types of tui/internal/app (model.go, navigation.go,
-- monitoring.go, live_feed.go). Go's string types (Screen, ViewState, the kinds) are texts here
-- too; a message is its format with its arguments.
use stellarview_tui.Prelude.{ℕ, String, Bool, Option, List}
use stellarview_tui.Prelude.Int.{ℤ}
use stellarview_tui.Config.{Config}
use stellarview_tui.Client.Transactions.{
  LedgerSummary, TransactionSummary, OperationSummary, LedgerLookupResponse,
  TransactionLookupResponse, OperationLookupSnapshot,
}
use stellarview_tui.Client.Accounts.{AssetHolderSummary, AccountLookupResponse, AssetLookupResponse}
use stellarview_tui.Client.Contracts.{
  ContractEventSummary, ContractStorageSummary, ContractLookupResponse, ContractEventLookupSnapshot,
  ContractStorageLookupSnapshot,
}

-- What a message is printed from.
pub data Arg : Type 0 where
  text : String → Arg
  int : ℤ → Arg
  nat : ℕ → Arg

pub record Message : Type 0 where
  pub format : String
  pub args : List Arg

-- A result or an error.
pub data Fallible (A : Type 0) : Type 0 where
  failed : Message → Fallible A
  done : A → Fallible A

abbrev pub Screen : Type 0
Screen = String

abbrev pub ViewState : Type 0
ViewState = String

abbrev pub StatusLevel : Type 0
StatusLevel = String

abbrev pub FocusArea : Type 0
FocusArea = String

abbrev pub LookupKind : Type 0
LookupKind = String

abbrev pub LookupExplorerKind : Type 0
LookupExplorerKind = String

abbrev pub ContractDecodeMode : Type 0
ContractDecodeMode = String

abbrev pub ContractWorkspaceTab : Type 0
ContractWorkspaceTab = String

pub record Status : Type 0 where
  pub level : StatusLevel
  pub message : Message

pub record SourceMetadata : Type 0 where
  pub mode : String
  pub operation : String
  pub policy : String
  pub preferred : String
  pub actual : String
  pub label : String
  pub cache_state : String
  pub fallback_used : Bool
  pub degraded : Bool
  pub degraded_reason : String

pub record SelectionSnapshot : Type 0 where
  pub live_feed_index : ℤ
  pub live_feed_scroll_offset : ℤ

pub record SearchResult : Type 0 where
  pub kind : String
  pub title : String
  pub description : String
  pub command : String
  pub enabled : Bool
  pub source : String

pub record CommandPaletteSnapshot : Type 0 where
  pub visible : Bool
  pub prompt : String
  pub input : String
  pub results : List SearchResult
  pub selected_index : ℤ
  pub search_limit : ℤ

pub record LookupExplorerSnapshot : Type 0 where
  pub kind : LookupExplorerKind
  pub title : String
  pub parent_label : String
  pub back_command : String
  pub next_command : String
  pub list_limit : ℤ
  pub list_offset : ℤ
  pub transactions : List TransactionSummary
  pub operations : List OperationSummary
  pub holders : List AssetHolderSummary
  pub events : List ContractEventSummary
  pub storage : List ContractStorageSummary
  pub results : List SearchResult

pub record LookupLabelSnapshot : Type 0 where
  pub name : String
  pub color : String

pub record LookupBookmarkSnapshot : Type 0 where
  pub title : String
  pub notes : String

pub record LookupNoteSnapshot : Type 0 where
  pub title : String
  pub body : String

pub record LookupCacheSnapshot : Type 0 where
  pub updated_at : ℤ
  pub source_label : String
  pub summary : String

pub record LookupMetadataSnapshot : Type 0 where
  pub labels : List LookupLabelSnapshot
  pub bookmarks : List LookupBookmarkSnapshot
  pub notes : List LookupNoteSnapshot
  pub cached : Option LookupCacheSnapshot

pub record LookupReturnContext : Type 0 where
  pub screen : Screen
  pub label : String

pub record LookupSnapshot : Type 0 where
  pub query : String
  pub kind : LookupKind
  pub backend_url : String
  pub source : SourceMetadata
  pub state : ViewState
  pub error : String
  pub selected_section : ℤ
  pub scroll_offset : ℤ
  pub explorer : Option LookupExplorerSnapshot
  pub ledger : Option LedgerLookupResponse
  pub transaction : Option TransactionLookupResponse
  pub operation : Option OperationLookupSnapshot
  pub account : Option AccountLookupResponse
  pub asset : Option AssetLookupResponse
  pub contract : Option ContractLookupResponse
  pub event : Option ContractEventLookupSnapshot
  pub storage_entry : Option ContractStorageLookupSnapshot
  pub decode_mode : ContractDecodeMode
  pub contract_tab : ContractWorkspaceTab
  pub expand_all : Bool
  pub visual_mode : Bool
  pub metadata : LookupMetadataSnapshot
  pub return_context : Option LookupReturnContext

pub record LiveFeedSnapshot : Type 0 where
  pub configured : Bool
  pub available : Bool
  pub state : ViewState
  pub backend_url : String
  pub source : SourceMetadata
  pub source_mode : String
  pub last_ingested_ledger : ℕ
  pub latest_ledger : Option LedgerSummary
  pub recent_transactions : List TransactionSummary
  pub scrollback : List TransactionSummary
  pub paused : Bool
  pub filter : String
  pub replay_offset : ℤ
  pub scrollback_count : ℤ
  pub max_scrollback : ℤ
  pub last_update_count : ℤ
  pub error : String

pub record CacheSnapshot : Type 0 where
  pub enabled : Bool
  pub available : Bool
  pub path : String
  pub schema : ℤ
  pub profiles : ℤ
  pub last_screen : String
  pub status : String
  pub default_id : String
  pub default_label : String

pub record LiveFeedFilterSpec : Type 0 where
  pub class : String
  pub account : String
  pub contract : String
  pub asset : String
  pub operation_type : String

pub record LiveFeedStreamUpdate : Type 0 where
  pub ledger : Option LedgerSummary
  pub transactions : List TransactionSummary

pub record LiveFeedMonitoringContext : Type 0 where
  pub active : Bool
  pub selected_index : ℤ
  pub scroll_offset : ℤ
  pub selected_hash : String
  pub paused : Bool
  pub replay_offset : ℤ
  pub filter_spec : LiveFeedFilterSpec

pub record LookupRouteStep : Type 0 where
  pub kind : LookupKind
  pub query : String
  pub explorer_kind : LookupExplorerKind
  pub title : String
  pub list_limit : ℤ
  pub list_offset : ℤ

pub record Model : Type 0 where
  pub config : Config
  pub config_path : String
  pub current : Screen
  pub history : List Screen
  pub forward : List Screen
  pub status : Status
  pub focus : FocusArea
  pub help_visible : Bool
  pub cache : CacheSnapshot
  pub live_feed : LiveFeedSnapshot
  pub lookup : LookupSnapshot
  pub lookup_history : List LookupSnapshot
  pub lookup_forward : List LookupSnapshot
  pub selection : SelectionSnapshot
  pub command : CommandPaletteSnapshot
  pub live_feed_all : List TransactionSummary
  pub live_feed_pending_stream : List LiveFeedStreamUpdate
  pub live_feed_filter_spec : LiveFeedFilterSpec
  pub live_feed_monitoring : LiveFeedMonitoringContext
  pub default_watch_applied : Bool
