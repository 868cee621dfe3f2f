-- ===== src/Cache/Store.antt =====
-- The state of the local store and the frame of its methods: tui/internal/cache/store.go.
-- Whether the database fails at a statement, and with what, is an argument of each method: an
-- error leaves the tables alone (`ExecContext` runs one statement).
pub mod Inversion
use stellarview_tui.Prelude.{
  ℕ, String, Bool, true, false, Option, none, some, List, [], ◌∷◌, ◌==◌, if◌then◌else◌,
}
use stellarview_tui.Cache.Rows.{
  Profile, Bookmark, Label, LabelTarget, Note, LiveTransaction, EntityCache, SavedView,
  WatchSetting, ListCache, StateEntry,
}

pub record Tables : Type 0 where
  pub profiles : List Profile
  pub app_state : List StateEntry
  pub bookmarks : List Bookmark
  pub labels : List Label
  pub label_targets : List LabelTarget
  pub notes : List Note
  pub live_transactions : List LiveTransaction
  pub entity_cache : List EntityCache
  pub saved_views : List SavedView
  pub watch_settings : List WatchSetting
  pub list_cache : List ListCache

abbrev pub no_tables : Tables
no_tables = record {
  profiles = [];
  app_state = [];
  bookmarks = [];
  labels = [];
  label_targets = [];
  notes = [];
  live_transactions = [];
  entity_cache = [];
  saved_views = [];
  watch_settings = [];
  list_cache = [];
}

-- A method's result: a value, the error of `errors.New`, that of `fmt.Errorf` around an error of
-- the database (with its other arguments), or `errNoRows` with what was looked for.
pub data Answer (A : Type 0) : Type 0 where
  given : A → Answer A
  refused : String → Answer A
  broken : String → List String → String → Answer A
  no_rows : String → List String → Answer A

-- What a method does with an open database.
abbrev pub Method : Type 0 → Type 0
Method A = Tables → Answer A × Tables

module _ {A : Type 0} where
  -- `if s == nil || s.db == nil`: a store without a database is `none`.
  abbrev pub on_store : Method A → Option Tables → Answer A × Option Tables
  on_store method none = (refused "cache: store is not initialized", none)
  on_store method (some tables) = let (answer, after) = method tables in (answer, some after)

  -- `if test { return errors.New(…) }`
  unfoldable pub refuse_if : Bool → String → Method A → Method A
  refuse_if true reason method tables = (refused reason, tables)
  refuse_if false reason method tables = method tables

  -- A query, whose rows are read in full.
  unfoldable pub query : Option String → String → List String → (Tables → Answer A) → Method A
  query none format args read tables = (read tables, tables)
  query (some e) format args read tables = (broken format args e, tables)

-- `ExecContext`
unfoldable pub execute :
    Option String → String → List String → (Tables → Tables) → Method (Unit {0})
execute none format args change tables = (given tt, change tables)
execute (some e) format args change tables = (broken format args e, tables)

-- `if x.CreatedAt.IsZero() { x.CreatedAt = now }`
abbrev pub time_or : ℕ → ℕ → ℕ
time_or now at = if at == 0 then now else at
