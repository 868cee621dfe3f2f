-- ===== src/Cache/Session/Kept.antt =====
-- No method of the local store breaks the keys of its tables.
use stellarview_tui.Prelude.{
  ℕ, refl, String, ◌||◌, Option, inl, inr, List, [], ◌∷◌, Bool-cases, Option-cases,
}
use stellarview_tui.Prelude.Int.{ℤ, pos, leb_ℤ}
use stellarview_tui.Prelude.Text.{is_empty}
use stellarview_tui.Cache.Rows.{LiveTransaction, EntityCache}
use stellarview_tui.Cache.Table.Laws.{upsert-HasDistinctKeys, delete-HasDistinctKeys}
use stellarview_tui.Cache.Store.{Tables, Answer, given, refused, broken, no_rows, Method}
use stellarview_tui.Cache.Store.Inversion.{Keeps, refuse_if-Keeps, execute-Keeps}
use stellarview_tui.Cache.Profiles.{state_key, updated_entry, set_state_json}
use stellarview_tui.Cache.Entities.{
  entity_key, updated_entity, pruned, prune_rows, store_entity, after_prune, visit,
}
use stellarview_tui.Cache.Session.{
  Call, perform, perform_all, profile_saved, state_saved, bookmark_saved, bookmark_deleted,
  label_saved, label_deleted, label_attached, label_detached, note_saved, note_deleted, view_saved,
  view_deleted, watch_saved, watch_deleted, entity_visited, entities_pruned, list_saved, feed_saved,
}
use stellarview_tui.Cache.Feed.{feed_key, updated_transaction, cached, upsert_live_transactions}
use stellarview_tui.Cache.Session.Keys.{
  IsKeyed, upsert_profile-Keeps, upsert_bookmark-Keeps, delete_bookmark-Keeps, upsert_label-Keeps,
  delete_label-Keeps, upsert_label_target-Keeps, delete_label_target-Keeps, upsert_note-Keeps,
  delete_note-Keeps, upsert_saved_view-Keeps, delete_saved_view-Keeps, upsert_watch_setting-Keeps,
  delete_watch_setting-Keeps, upsert_list_cache-Keeps,
}

set_state_json-Keeps :
    (problem : Option String) (now : ℕ) (name : String) (value : Answer String)
    → Keeps IsKeyed (set_state_json problem now name value)
unfolding set_state_json
set_state_json-Keeps problem now name (given payload) = refuse_if-Keeps IsKeyed _ _ _ (record {
  after =
      (execute-Keeps IsKeyed _ _ _ _ (λ t (a, b, c, d, e, f, g, h, i, j, k). (
        a,
        upsert-HasDistinctKeys state_key updated_entry (λ o n. refl) _ t.app_state b,
        c,
        d,
        e,
        f,
        g,
        h,
        i,
        j,
        k,
      ))).after;
})
set_state_json-Keeps problem now name (refused reason) =
    refuse_if-Keeps IsKeyed _ _ _ (record { after = λ t h. h })
set_state_json-Keeps problem now name (broken format args e) =
    refuse_if-Keeps IsKeyed _ _ _ (record { after = λ t h. h })
set_state_json-Keeps problem now name (no_rows format args) =
    refuse_if-Keeps IsKeyed _ _ _ (record { after = λ t h. h })

prune_rows-Keeps :
    (problem : Option String) (profile_id : String) (n : ℤ)
    → Keeps IsKeyed (prune_rows problem profile_id n)
unfolding prune_rows pruned
prune_rows-Keeps problem profile_id n =
    refuse_if-Keeps IsKeyed _ _ _ (elim (Bool-cases (leb_ℤ n (pos 0))) [
      | inl all ↦ rw all (record { after = λ t h. h })
      | inr some_left ↦ rw some_left (
          execute-Keeps IsKeyed _ _ _ _ (λ t (a, b, c, d, e, f, g, h, i, j, k).
            (a, b, c, d, e, f, g, delete-HasDistinctKeys entity_key _ t.entity_cache h, i, j, k)))
    ])

after_prune-IsKeyed :
    (next : Method (Unit {0})) (answer : Answer (Unit {0})) (tables : Tables)
    → Keeps IsKeyed next
    → IsKeyed tables
    → IsKeyed (after_prune next (answer, tables)).1
unfolding after_prune
after_prune-IsKeyed next (given u) tables keeps h = keeps.after tables h
after_prune-IsKeyed next (refused reason) tables keeps h = h
after_prune-IsKeyed next (broken format args e) tables keeps h = h
after_prune-IsKeyed next (no_rows format args) tables keeps h = h

visit-Keeps :
    (prune_problem problem : Option String) (now : ℕ) (entity : EntityCache)
    → Keeps IsKeyed (visit prune_problem problem now entity)
unfolding visit store_entity
visit-Keeps prune_problem problem now entity = refuse_if-Keeps IsKeyed _ _ _ (
    refuse_if-Keeps IsKeyed _ _ _ (
      refuse_if-Keeps IsKeyed _ _ _ (
        refuse_if-Keeps IsKeyed _ _ _ (record {
          after = λ tables h.
              after_prune-IsKeyed _ (prune_rows prune_problem entity.profile_id (pos 500) tables).0
                (prune_rows prune_problem entity.profile_id (pos 500) tables).1
                (execute-Keeps IsKeyed _ _ _ _ (λ t (a, b, c, d, e, f, g, h, i, j, k). (
                  a,
                  b,
                  c,
                  d,
                  e,
                  f,
                  g,
                  upsert-HasDistinctKeys entity_key updated_entity (λ o n. refl) _ t.entity_cache h,
                  i,
                  j,
                  k,
                )))
                ((prune_rows-Keeps prune_problem entity.profile_id (pos 500)).after tables h);
        }))))

upsert_live_transactions-IsKeyed :
    (problem : LiveTransaction → Option String) (now : ℕ) (txs : List LiveTransaction)
    (tables : Tables)
    → IsKeyed tables
    → IsKeyed (upsert_live_transactions problem now txs tables).1
unfolding upsert_live_transactions
upsert_live_transactions-IsKeyed problem now [] tables h = h
upsert_live_transactions-IsKeyed problem now (tx ∷ txs) tables keyed =
    let (a, b, c, d, e, f, g, h, i, j, k) = keyed in
    elim (Bool-cases (is_empty tx.profile_id || is_empty tx.hash)) [
      | inl skip ↦ rw skip (upsert_live_transactions-IsKeyed problem now txs tables keyed)
      | inr keep ↦ elim (Option-cases (problem tx)) [
        | inr (error, found) ↦ rw (keep, found) keyed
        | inl fine ↦
            rw (keep, fine)
              (upsert_live_transactions-IsKeyed problem now txs _ (
                a,
                b,
                c,
                d,
                e,
                f,
                upsert-HasDistinctKeys feed_key updated_transaction (λ o n. refl) (cached now tx)
                    tables.live_transactions g,
                h,
                i,
                j,
                k,
              ))
      ]
    ]

perform-IsKeyed : (call : Call) (tables : Tables) → IsKeyed tables → IsKeyed (perform call tables)
unfolding perform
perform-IsKeyed (profile_saved problem now profile) =
    (upsert_profile-Keeps problem now profile).after
perform-IsKeyed (state_saved problem now name value) =
    (set_state_json-Keeps problem now name value).after
perform-IsKeyed (bookmark_saved problem now bookmark) =
    (upsert_bookmark-Keeps problem now bookmark).after
perform-IsKeyed (bookmark_deleted problem id) = (delete_bookmark-Keeps problem id).after
perform-IsKeyed (label_saved problem now label) = (upsert_label-Keeps problem now label).after
perform-IsKeyed (label_deleted problem id) = (delete_label-Keeps problem id).after
perform-IsKeyed (label_attached problem now target) =
    (upsert_label_target-Keeps problem now target).after
perform-IsKeyed (label_detached problem id) = (delete_label_target-Keeps problem id).after
perform-IsKeyed (note_saved problem now note) = (upsert_note-Keeps problem now note).after
perform-IsKeyed (note_deleted problem id) = (delete_note-Keeps problem id).after
perform-IsKeyed (view_saved problem now view) = (upsert_saved_view-Keeps problem now view).after
perform-IsKeyed (view_deleted problem profile_id name) =
    (delete_saved_view-Keeps problem profile_id name).after
perform-IsKeyed (watch_saved problem now setting) =
    (upsert_watch_setting-Keeps problem now setting).after
perform-IsKeyed (watch_deleted problem profile_id name) =
    (delete_watch_setting-Keeps problem profile_id name).after
perform-IsKeyed (entity_visited prune_problem problem now entity) =
    (visit-Keeps prune_problem problem now entity).after
perform-IsKeyed (entities_pruned problem profile_id n) =
    (prune_rows-Keeps problem profile_id n).after
perform-IsKeyed (list_saved problem now entry) = (upsert_list_cache-Keeps problem now entry).after
perform-IsKeyed (feed_saved problem now txs) = upsert_live_transactions-IsKeyed problem now txs

-- Whatever methods are called, with whatever arguments and whatever errors of the database, no
-- table of the local store ever holds two rows with the same key: the conflict target of its
-- INSERT.
pub perform_all-IsKeyed :
    (calls : List Call) (tables : Tables) → IsKeyed tables → IsKeyed (perform_all calls tables)
unfolding perform_all
perform_all-IsKeyed [] tables h = h
perform_all-IsKeyed (call ∷ calls) tables h =
    perform_all-IsKeyed calls (perform call tables) (perform-IsKeyed call tables h)
