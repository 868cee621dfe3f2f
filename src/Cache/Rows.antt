-- ===== src/Cache/Rows.antt =====
-- The rows of the local store: tui/internal/cache/types.go, saved_views.go, watch_settings.go and
-- lists.go. A time is the number of nanoseconds since the zero time, which `IsZero` tests.
use stellarview_tui.Prelude.{ℕ, String, Bool}
use stellarview_tui.Prelude.Int.{ℤ}

pub record Profile : Type 0 where
  pub id : String
  pub name : String
  pub network : String
  pub rpc_url : String
  pub indexer_url : String
  pub created_at : ℕ
  pub updated_at : ℕ

pub record Bookmark : Type 0 where
  pub id : String
  pub profile_id : String
  pub kind : String
  pub target : String
  pub title : String
  pub notes : String
  pub created_at : ℕ
  pub updated_at : ℕ

pub record Label : Type 0 where
  pub id : String
  pub profile_id : String
  pub name : String
  pub color : String
  pub created_at : ℕ
  pub updated_at : ℕ

pub record LabelTarget : Type 0 where
  pub id : String
  pub label_id : String
  pub profile_id : String
  pub kind : String
  pub target : String
  pub created_at : ℕ
  pub updated_at : ℕ

pub record Note : Type 0 where
  pub id : String
  pub profile_id : String
  pub target : String
  pub title : String
  pub body : String
  pub created_at : ℕ
  pub updated_at : ℕ

pub record LiveTransaction : Type 0 where
  pub profile_id : String
  pub hash : String
  pub ledger_sequence : ℕ
  pub application_order : ℤ
  pub account : String
  pub operation_count : ℤ
  pub status : ℤ
  pub is_soroban : Bool
  pub created_at : ℕ
  pub cached_at : ℕ

pub record EntityCache : Type 0 where
  pub profile_id : String
  pub kind : String
  pub target : String
  pub title : String
  pub summary : String
  pub payload : String
  pub source_label : String
  pub created_at : ℕ
  pub updated_at : ℕ

pub record SavedView : Type 0 where
  pub id : String
  pub profile_id : String
  pub name : String
  pub command : String
  pub screen : String
  pub entity_kind : String
  pub entity_target : String
  pub filters_json : String
  pub created_at : ℕ
  pub updated_at : ℕ

pub record WatchSetting : Type 0 where
  pub id : String
  pub profile_id : String
  pub name : String
  pub filters_json : String
  pub paused : Bool
  pub auto_apply : Bool
  pub created_at : ℕ
  pub updated_at : ℕ

pub record ListCache : Type 0 where
  pub profile_id : String
  pub list_kind : String
  pub query_key : String
  pub payload : String
  pub source_label : String
  pub created_at : ℕ
  pub updated_at : ℕ

-- A row of app_state.
pub record StateEntry : Type 0 where
  pub key : String
  pub value : String
  pub updated_at : ℕ
