-- ===== src/App/WellFormed/Moves.antt =====
-- Moving between screens and lookups keeps the model well formed.
use stellarview_tui.Prelude.{
  ◌+◌, ◌≤◌, ltb, ◌≡◌, refl, ap, subst, Bool, ◌||◌, inl, inr, some, List, [], ◌∷◌, ◌++◌, length,
  length-append, All, All-append, str_eq, Bool-cases, if-either, arith,
}
use stellarview_tui.Prelude.Int.{ℤ}
use stellarview_tui.Prelude.Text.{is_empty}
use stellarview_tui.App.State.{
  Fallible, failed, done, Screen, LookupSnapshot, LiveFeedFilterSpec, Model,
}
use stellarview_tui.App.Feed.{apply_live_feed_view}
use stellarview_tui.App.Monitoring.{
  screen_live_feed, screen_lookup, capture_live_feed_monitoring_context, restore_context,
  restore_live_feed_monitoring_context, return_to_live_monitoring, apply_watch_settings,
}
use stellarview_tui.App.History.{
  is_valid_screen, unsnoc, push_history, push_lookup_history, trim_history, set_screen, restored,
  restore_screen, if_ready, if_set, lookup_history_limit,
}
use stellarview_tui.App.History.RoundTrip.{unsnoc-some}
use stellarview_tui.App.WellFormed.{IsValidScreen, WellFormed, with_lookups, with_screens}

live_feed_valid : IsValidScreen screen_live_feed
unfolding is_valid_screen
live_feed_valid = refl

pub lookup_valid : IsValidScreen screen_lookup
unfolding is_valid_screen
lookup_valid = refl

-- The elements of a stack before its last one, and the last one.
pub unsnoc-length :
    {A : Type 0} (xs init : List A) (last : A)
    → unsnoc xs ≡ some (init, last)
    → length xs ≡ length init + 1
unsnoc-length xs init last e =
    omega (arith, ap length (unsnoc-some xs init last e), length-append init (last ∷ []))

All-init :
    {A : Type 0} (P : A → Type 0) (init : List A) (last : A)
    → All P (init ++ last ∷ [])
    → All P init × P last
All-init P [] last h = (tt, h.0)
All-init P (x ∷ init) last h = let (rest, end) = All-init P init last h.1 in ((h.0, rest), end)

pub unsnoc-valid :
    (screens init : List Screen) (last : Screen)
    → unsnoc screens ≡ some (init, last)
    → All IsValidScreen screens
    → All IsValidScreen init × IsValidScreen last
unsnoc-valid screens init last e h =
    All-init IsValidScreen init last (subst (All IsValidScreen) (unsnoc-some screens init last e) h)

pub capture-WellFormed :
    (index offset : ℤ) (m : Model)
    → WellFormed m
    → WellFormed (capture_live_feed_monitoring_context index offset m)
unfolding capture_live_feed_monitoring_context
capture-WellFormed index offset m h =
    if-either WellFormed (str_eq m.current screen_live_feed) _ m h h

pub restore_live_feed_monitoring_context-WellFormed :
    (m : Model) → WellFormed m → WellFormed (restore_live_feed_monitoring_context m).1
unfolding restore_live_feed_monitoring_context restore_context apply_live_feed_view
restore_live_feed_monitoring_context-WellFormed m h =
    if-either (λ (r : Bool × Model). WellFormed r.1) m.live_feed_monitoring.active _ _ h h

pub return_to_live_monitoring-WellFormed :
    (m : Model) → WellFormed m → WellFormed (return_to_live_monitoring m).1
unfolding return_to_live_monitoring
return_to_live_monitoring-WellFormed m h =
    if-either (λ (r : Bool × Model). WellFormed r.1) _ _ _
      (restore_live_feed_monitoring_context-WellFormed _
        (with_screens live_feed_valid h.earlier h.later (with_lookups (omega arith) h)))
      h

pub apply_watch_settings-WellFormed :
    (spec : LiveFeedFilterSpec) (paused : Bool) (m : Model)
    → WellFormed m
    → WellFormed (apply_watch_settings spec paused m)
unfolding apply_watch_settings apply_live_feed_view
apply_watch_settings-WellFormed spec paused m h = h

push_history-WellFormed :
    (next : Screen) (m : Model) → WellFormed m → WellFormed (push_history next m)
unfolding push_history
push_history-WellFormed next m h =
    if-either WellFormed (is_empty m.current || str_eq m.current next) m _ h (
      with_screens h.here
        (All-append IsValidScreen m.history (m.current ∷ []) h.earlier (h.here, tt)) tt h)

pub set_screen-WellFormed :
    (screen : Screen) (m : Model) → WellFormed m → WellFormed (set_screen screen m).1
unfolding set_screen
set_screen-WellFormed screen m h =
    let pushed = push_history-WellFormed screen m h in
    elim (Bool-cases (is_valid_screen screen)) [
      | inl valid ↦ rw valid (with_screens valid pushed.earlier pushed.later pushed)
      | inr unknown ↦ rw unknown h
    ]

length-trim_history :
    (stack : List LookupSnapshot)
    → length stack ≤ lookup_history_limit + 1
    → length (trim_history stack) ≤ lookup_history_limit
unfolding trim_history
length-trim_history [] h = omega arith
length-trim_history (first ∷ rest) h =
    elim (Bool-cases (ltb lookup_history_limit (length (first ∷ rest)))) [
      | inl long ↦ rw long (omega arith)
      | inr short ↦ rw short (ground arith)
    ]

pub push_lookup_history-WellFormed : (m : Model) → WellFormed m → WellFormed (push_lookup_history m)
unfolding push_lookup_history
push_lookup_history-WellFormed m h =
    let grown = length-append m.lookup_history (m.lookup ∷ []) in
    let b = h.bounded in
    if-either WellFormed _ m _ h (
      with_lookups
        (omega (
          arith,
          length-trim_history (m.lookup_history ++ m.lookup ∷ []) (omega (arith, grown, b)),
        ))
        h)

pub length-if_ready :
    (lookup : LookupSnapshot) (stack : List LookupSnapshot)
    → length (if_ready lookup stack) ≤ length stack + 1
unfolding if_ready
length-if_ready lookup stack =
    if-either (λ (l : List LookupSnapshot). length l ≤ length stack + 1)
      (str_eq lookup.state "ready") _ _ (omega (arith, length-append stack (lookup ∷ [])))
      (omega arith)

pub if_set-valid :
    (screen : Screen) (stack : List Screen)
    → IsValidScreen screen
    → All IsValidScreen stack
    → All IsValidScreen (if_set screen stack)
unfolding if_set
if_set-valid screen stack v h =
    if-either (All IsValidScreen) (is_empty screen) stack _ h
      (All-append IsValidScreen stack (screen ∷ []) h (v, tt))

restored-WellFormed :
    (screen : Screen) (r : Fallible (Unit {0}) × Model)
    → WellFormed r.1
    → WellFormed (restored screen r).1
unfolding restored
restored-WellFormed screen (failed e, m) h = h
restored-WellFormed screen (done u, m) h = h

pub restore_screen-WellFormed :
    (screen : Screen) (m : Model) → WellFormed m → WellFormed (restore_screen screen m).1
unfolding restore_screen
restore_screen-WellFormed screen m h =
    restored-WellFormed screen (set_screen screen m) (set_screen-WellFormed screen m h)

-- A switch to the lookup.
pub to_lookup-WellFormed :
    (m : Model)
    → WellFormed m
    → WellFormed (record (push_history screen_lookup m) { current = screen_lookup })
to_lookup-WellFormed m h =
    let pushed = push_history-WellFormed screen_lookup m h in
    with_screens lookup_valid pushed.earlier pushed.later pushed
