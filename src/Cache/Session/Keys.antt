-- ===== src/Cache/Session/Keys.antt =====
-- The keys of every table of the local store stay distinct.
use stellarview_tui.Prelude.{ℕ, refl, String, Option}
use stellarview_tui.Cache.Rows.{
  Profile, Bookmark, Label, LabelTarget, Note, SavedView, WatchSetting, ListCache,
}
use stellarview_tui.Cache.Table.Laws.{
  HasDistinctKeys, upsert-HasDistinctKeys, delete-HasDistinctKeys,
}
use stellarview_tui.Cache.Store.{Tables}
use stellarview_tui.Cache.Store.Inversion.{Keeps, refuse_if-Keeps, execute-Keeps}
use stellarview_tui.Cache.Profiles.{profile_key, updated_profile, upsert_profile, state_key}
use stellarview_tui.Cache.Bookmarks.{
  bookmark_key, updated_bookmark, upsert_bookmark, delete_bookmark,
}
use stellarview_tui.Cache.Labels.{
  label_key, updated_label, upsert_label, delete_label, target_key, updated_target,
  upsert_label_target, delete_label_target,
}
use stellarview_tui.Cache.Notes.{note_key, updated_note, upsert_note, delete_note}
use stellarview_tui.Cache.Views.{view_key, updated_view, upsert_saved_view, delete_saved_view}
use stellarview_tui.Cache.Watches.{
  setting_key, updated_setting, upsert_watch_setting, delete_watch_setting,
}
use stellarview_tui.Cache.Entities.{entity_key}
use stellarview_tui.Cache.Lists.{list_key, updated_list, upsert_list_cache}
use stellarview_tui.Cache.Feed.{feed_key}

abbrev pub IsKeyed : Tables → Type 0
IsKeyed tables =
    HasDistinctKeys profile_key tables.profiles
    × HasDistinctKeys state_key tables.app_state
    × HasDistinctKeys bookmark_key tables.bookmarks
    × HasDistinctKeys label_key tables.labels
    × HasDistinctKeys target_key tables.label_targets
    × HasDistinctKeys note_key tables.notes
    × HasDistinctKeys feed_key tables.live_transactions
    × HasDistinctKeys entity_key tables.entity_cache
    × HasDistinctKeys view_key tables.saved_views
    × HasDistinctKeys setting_key tables.watch_settings
    × HasDistinctKeys list_key tables.list_cache

pub upsert_profile-Keeps :
    (problem : Option String) (now : ℕ) (profile : Profile)
    → Keeps IsKeyed (upsert_profile problem now profile)
unfolding upsert_profile
upsert_profile-Keeps problem now profile = refuse_if-Keeps IsKeyed _ _ _ (
    refuse_if-Keeps IsKeyed _ _ _ (
      execute-Keeps IsKeyed _ _ _ _ (λ t (a, b, c, d, e, f, g, h, i, j, k). (
        upsert-HasDistinctKeys profile_key updated_profile (λ o n. refl) _ t.profiles a,
        b,
        c,
        d,
        e,
        f,
        g,
        h,
        i,
        j,
        k,
      ))))

pub upsert_bookmark-Keeps :
    (problem : Option String) (now : ℕ) (bookmark : Bookmark)
    → Keeps IsKeyed (upsert_bookmark problem now bookmark)
unfolding upsert_bookmark
upsert_bookmark-Keeps problem now bookmark = refuse_if-Keeps IsKeyed _ _ _ (
    refuse_if-Keeps IsKeyed _ _ _ (
      refuse_if-Keeps IsKeyed _ _ _ (
        refuse_if-Keeps IsKeyed _ _ _ (
          refuse_if-Keeps IsKeyed _ _ _ (
            execute-Keeps IsKeyed _ _ _ _ (λ t (a, b, c, d, e, f, g, h, i, j, k). (
              a,
              b,
              upsert-HasDistinctKeys bookmark_key updated_bookmark (λ o n. refl) _ t.bookmarks c,
              d,
              e,
              f,
              g,
              h,
              i,
              j,
              k,
            )))))))

pub delete_bookmark-Keeps :
    (problem : Option String) (id : String) → Keeps IsKeyed (delete_bookmark problem id)
unfolding delete_bookmark
delete_bookmark-Keeps problem id = refuse_if-Keeps IsKeyed _ _ _ (
    execute-Keeps IsKeyed _ _ _ _ (λ t (a, b, c, d, e, f, g, h, i, j, k).
      (a, b, delete-HasDistinctKeys bookmark_key _ t.bookmarks c, d, e, f, g, h, i, j, k)))

pub upsert_label-Keeps :
    (problem : Option String) (now : ℕ) (label : Label)
    → Keeps IsKeyed (upsert_label problem now label)
unfolding upsert_label
upsert_label-Keeps problem now label = refuse_if-Keeps IsKeyed _ _ _ (
    refuse_if-Keeps IsKeyed _ _ _ (
      refuse_if-Keeps IsKeyed _ _ _ (
        execute-Keeps IsKeyed _ _ _ _ (λ t (a, b, c, d, e, f, g, h, i, j, k). (
          a,
          b,
          c,
          upsert-HasDistinctKeys label_key updated_label (λ o n. refl) _ t.labels d,
          e,
          f,
          g,
          h,
          i,
          j,
          k,
        )))))

pub delete_label-Keeps :
    (problem : Option String) (id : String) → Keeps IsKeyed (delete_label problem id)
unfolding delete_label
delete_label-Keeps problem id = refuse_if-Keeps IsKeyed _ _ _ (
    execute-Keeps IsKeyed _ _ _ _ (λ t (a, b, c, d, e, f, g, h, i, j, k).
      (a, b, c, delete-HasDistinctKeys label_key _ t.labels d, e, f, g, h, i, j, k)))

pub upsert_label_target-Keeps :
    (problem : Option String) (now : ℕ) (target : LabelTarget)
    → Keeps IsKeyed (upsert_label_target problem now target)
unfolding upsert_label_target
upsert_label_target-Keeps problem now target = refuse_if-Keeps IsKeyed _ _ _ (
    refuse_if-Keeps IsKeyed _ _ _ (
      refuse_if-Keeps IsKeyed _ _ _ (
        refuse_if-Keeps IsKeyed _ _ _ (
          refuse_if-Keeps IsKeyed _ _ _ (
            execute-Keeps IsKeyed _ _ _ _ (λ t (a, b, c, d, e, f, g, h, i, j, k). (
              a,
              b,
              c,
              d,
              upsert-HasDistinctKeys target_key updated_target (λ o n. refl) _ t.label_targets e,
              f,
              g,
              h,
              i,
              j,
              k,
            )))))))

pub delete_label_target-Keeps :
    (problem : Option String) (id : String) → Keeps IsKeyed (delete_label_target problem id)
unfolding delete_label_target
delete_label_target-Keeps problem id = refuse_if-Keeps IsKeyed _ _ _ (
    execute-Keeps IsKeyed _ _ _ _ (λ t (a, b, c, d, e, f, g, h, i, j, k).
      (a, b, c, d, delete-HasDistinctKeys target_key _ t.label_targets e, f, g, h, i, j, k)))

pub upsert_note-Keeps :
    (problem : Option String) (now : ℕ) (note : Note) → Keeps IsKeyed (upsert_note problem now note)
unfolding upsert_note
upsert_note-Keeps problem now note = refuse_if-Keeps IsKeyed _ _ _ (
    refuse_if-Keeps IsKeyed _ _ _ (
      refuse_if-Keeps IsKeyed _ _ _ (
        refuse_if-Keeps IsKeyed _ _ _ (
          execute-Keeps IsKeyed _ _ _ _ (λ t (a, b, c, d, e, f, g, h, i, j, k). (
            a,
            b,
            c,
            d,
            e,
            upsert-HasDistinctKeys note_key updated_note (λ o n. refl) _ t.notes f,
            g,
            h,
            i,
            j,
            k,
          ))))))

pub delete_note-Keeps :
    (problem : Option String) (id : String) → Keeps IsKeyed (delete_note problem id)
unfolding delete_note
delete_note-Keeps problem id = refuse_if-Keeps IsKeyed _ _ _ (
    execute-Keeps IsKeyed _ _ _ _ (λ t (a, b, c, d, e, f, g, h, i, j, k).
      (a, b, c, d, e, delete-HasDistinctKeys note_key _ t.notes f, g, h, i, j, k)))

pub upsert_saved_view-Keeps :
    (problem : Option String) (now : ℕ) (view : SavedView)
    → Keeps IsKeyed (upsert_saved_view problem now view)
unfolding upsert_saved_view
upsert_saved_view-Keeps problem now view = refuse_if-Keeps IsKeyed _ _ _ (
    refuse_if-Keeps IsKeyed _ _ _ (
      refuse_if-Keeps IsKeyed _ _ _ (
        execute-Keeps IsKeyed _ _ _ _ (λ t (a, b, c, d, e, f, g, h, i, j, k). (
          a,
          b,
          c,
          d,
          e,
          f,
          g,
          h,
          upsert-HasDistinctKeys view_key updated_view (λ o n. refl) _ t.saved_views i,
          j,
          k,
        )))))

pub delete_saved_view-Keeps :
    (problem : Option String) (profile_id name : String)
    → Keeps IsKeyed (delete_saved_view problem profile_id name)
unfolding delete_saved_view
delete_saved_view-Keeps problem profile_id name = refuse_if-Keeps IsKeyed _ _ _ (
    execute-Keeps IsKeyed _ _ _ _ (λ t (a, b, c, d, e, f, g, h, i, j, k).
      (a, b, c, d, e, f, g, h, delete-HasDistinctKeys view_key _ t.saved_views i, j, k)))

pub upsert_watch_setting-Keeps :
    (problem : Option String) (now : ℕ) (setting : WatchSetting)
    → Keeps IsKeyed (upsert_watch_setting problem now setting)
unfolding upsert_watch_setting
upsert_watch_setting-Keeps problem now setting = refuse_if-Keeps IsKeyed _ _ _ (
    refuse_if-Keeps IsKeyed _ _ _ (
      execute-Keeps IsKeyed _ _ _ _ (λ t (a, b, c, d, e, f, g, h, i, j, k). (
        a,
        b,
        c,
        d,
        e,
        f,
        g,
        h,
        i,
        upsert-HasDistinctKeys setting_key updated_setting (λ o n. refl) _ t.watch_settings j,
        k,
      ))))

pub delete_watch_setting-Keeps :
    (problem : Option String) (profile_id name : String)
    → Keeps IsKeyed (delete_watch_setting problem profile_id name)
unfolding delete_watch_setting
delete_watch_setting-Keeps problem profile_id name = refuse_if-Keeps IsKeyed _ _ _ (
    execute-Keeps IsKeyed _ _ _ _ (λ t (a, b, c, d, e, f, g, h, i, j, k).
      (a, b, c, d, e, f, g, h, i, delete-HasDistinctKeys setting_key _ t.watch_settings j, k)))

pub upsert_list_cache-Keeps :
    (problem : Option String) (now : ℕ) (entry : ListCache)
    → Keeps IsKeyed (upsert_list_cache problem now entry)
unfolding upsert_list_cache
upsert_list_cache-Keeps problem now entry = refuse_if-Keeps IsKeyed _ _ _ (
    execute-Keeps IsKeyed _ _ _ _ (λ t (a, b, c, d, e, f, g, h, i, j, k). (
      a,
      b,
      c,
      d,
      e,
      f,
      g,
      h,
      i,
      j,
      upsert-HasDistinctKeys list_key updated_list (λ o n. refl) _ t.list_cache k,
    )))
