-- ===== src/Cache/Session.antt =====
-- A session of the local store: the calls of its methods that change it, one after the other, with
-- whatever the database reports.
pub mod Keys
pub mod Kept
pub mod Bound
use stellarview_tui.Prelude.{ℕ, String, Option, List, [], ◌∷◌}
use stellarview_tui.Prelude.Int.{ℤ}
use stellarview_tui.Cache.Rows.{
  Profile, Bookmark, Label, LabelTarget, Note, LiveTransaction, EntityCache, SavedView,
  WatchSetting, ListCache,
}
use stellarview_tui.Cache.Store.{Tables, Answer}
use stellarview_tui.Cache.Profiles.{upsert_profile, set_state_json}
use stellarview_tui.Cache.Bookmarks.{upsert_bookmark, delete_bookmark}
use stellarview_tui.Cache.Labels.{
  upsert_label, delete_label, upsert_label_target, delete_label_target,
}
use stellarview_tui.Cache.Notes.{upsert_note, delete_note}
use stellarview_tui.Cache.Views.{upsert_saved_view, delete_saved_view}
use stellarview_tui.Cache.Watches.{upsert_watch_setting, delete_watch_setting}
use stellarview_tui.Cache.Entities.{visit, prune_rows}
use stellarview_tui.Cache.Lists.{upsert_list_cache}
use stellarview_tui.Cache.Feed.{upsert_live_transactions}

-- A call, with what the database reports, the time and its arguments.
pub data Call : Type 0 where
  profile_saved : Option String → ℕ → Profile → Call
  state_saved : Option String → ℕ → String → Answer String → Call
  bookmark_saved : Option String → ℕ → Bookmark → Call
  bookmark_deleted : Option String → String → Call
  label_saved : Option String → ℕ → Label → Call
  label_deleted : Option String → String → Call
  label_attached : Option String → ℕ → LabelTarget → Call
  label_detached : Option String → String → Call
  note_saved : Option String → ℕ → Note → Call
  note_deleted : Option String → String → Call
  view_saved : Option String → ℕ → SavedView → Call
  view_deleted : Option String → String → String → Call
  watch_saved : Option String → ℕ → WatchSetting → Call
  watch_deleted : Option String → String → String → Call
  entity_visited : Option String → Option String → ℕ → EntityCache → Call
  entities_pruned : Option String → String → ℤ → Call
  list_saved : Option String → ℕ → ListCache → Call
  feed_saved : (LiveTransaction → Option String) → ℕ → List LiveTransaction → Call

unfoldable pub perform : Call → Tables → Tables
perform (profile_saved problem now profile) tables = (upsert_profile problem now profile tables).1
perform (state_saved problem now name value) tables =
    (set_state_json problem now name value tables).1
perform (bookmark_saved problem now bookmark) tables =
    (upsert_bookmark problem now bookmark tables).1
perform (bookmark_deleted problem id) tables = (delete_bookmark problem id tables).1
perform (label_saved problem now label) tables = (upsert_label problem now label tables).1
perform (label_deleted problem id) tables = (delete_label problem id tables).1
perform (label_attached problem now target) tables =
    (upsert_label_target problem now target tables).1
perform (label_detached problem id) tables = (delete_label_target problem id tables).1
perform (note_saved problem now note) tables = (upsert_note problem now note tables).1
perform (note_deleted problem id) tables = (delete_note problem id tables).1
perform (view_saved problem now view) tables = (upsert_saved_view problem now view tables).1
perform (view_deleted problem profile_id name) tables =
    (delete_saved_view problem profile_id name tables).1
perform (watch_saved problem now setting) tables =
    (upsert_watch_setting problem now setting tables).1
perform (watch_deleted problem profile_id name) tables =
    (delete_watch_setting problem profile_id name tables).1
perform (entity_visited prune_problem problem now entity) tables =
    (visit prune_problem problem now entity tables).1
perform (entities_pruned problem profile_id n) tables = (prune_rows problem profile_id n tables).1
perform (list_saved problem now entry) tables = (upsert_list_cache problem now entry tables).1
perform (feed_saved problem now txs) tables = (upsert_live_transactions problem now txs tables).1

unfoldable pub perform_all : List Call → Tables → Tables
perform_all [] tables = tables
perform_all (call ∷ calls) tables = perform_all calls (perform call tables)
