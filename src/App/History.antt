-- ===== src/App/History.antt =====
-- Moving between screens and between lookups: tui/internal/app/model.go. The last element of a
-- history is the one to go back to.
pub mod RoundTrip
use stellarview_tui.Prelude.{
  ℕ, zero, suc, ◌+◌, String, Bool, true, false, not, ◌&&◌, ◌||◌, Option, none, some, List, [], ◌∷◌,
  ◌++◌, ltb, length, str_eq, is_some, if◌then◌else◌,
}
use stellarview_tui.Prelude.Text.{trim_space, to_lower, is_empty}
use stellarview_tui.App.State.{
  text, Fallible, failed, done, Screen, LookupExplorerSnapshot, LookupSnapshot, Model,
}
use stellarview_tui.App.Sources.{message, status, status_info, status_warn}
use stellarview_tui.App.Monitoring.{
  screen_home, screen_live_feed, screen_lookup, screen_settings, returns_to_live,
  restore_live_feed_monitoring_context, return_to_live_monitoring,
}

abbrev pub lookup_history_limit : ℕ
lookup_history_limit = 50

-- The last element and the elements before it.
unfoldable pub unsnoc : {A : Type 0} → List A → Option (List A × A)
unsnoc [] = none
unsnoc (x ∷ xs) = elim (unsnoc xs) [
  | none ↦ some ([], x)
  | some (init, last) ↦ some (x ∷ init, last)
]

-- `validScreens`
unfoldable pub is_valid_screen : Screen → Bool
is_valid_screen screen =
    str_eq screen screen_home
    || str_eq screen screen_live_feed
    || str_eq screen screen_lookup
    || str_eq screen screen_settings

-- `ParseScreen`
unfoldable pub parse_screen : String → Fallible Screen
parse_screen value =
    let screen = trim_space (to_lower value) in
    if is_valid_screen screen
    then done screen
    else failed (message "unknown screen %q" (text value ∷ []))

-- `pushHistory`
unfoldable pub push_history : Screen → Model → Model
push_history next m =
    if is_empty m.current || str_eq m.current next
    then m
    else record m { history = m.history ++ m.current ∷ []; forward = [] }

-- Whether two lookups have the same kind of explorer, or both none.
unfoldable pub same_explorer : Option LookupExplorerSnapshot → Option LookupExplorerSnapshot → Bool
same_explorer none none = true
same_explorer (some a) (some b) = str_eq a.kind b.kind
same_explorer _ _ = false

unfoldable pub same_lookup : LookupSnapshot → LookupSnapshot → Bool
same_lookup a b =
    str_eq a.kind b.kind && str_eq a.query b.query && same_explorer a.explorer b.explorer

-- Whether the last lookup of the history is the same as this one.
unfoldable pub ends_with_lookup : LookupSnapshot → List LookupSnapshot → Bool
ends_with_lookup snapshot [] = false
ends_with_lookup snapshot (last ∷ []) = same_lookup last snapshot
ends_with_lookup snapshot (first ∷ next ∷ rest) = ends_with_lookup snapshot (next ∷ rest)

-- `lookupHistory[1:]` where it is too long
unfoldable pub trim_history : List LookupSnapshot → List LookupSnapshot
trim_history [] = []
trim_history (first ∷ rest) =
    if ltb lookup_history_limit (length (first ∷ rest)) then rest else first ∷ rest

-- `pushLookupHistory`
unfoldable pub push_lookup_history : Model → Model
push_lookup_history m =
    if not (str_eq m.lookup.state "ready") || ends_with_lookup m.lookup m.lookup_history
    then m
    else record m {
      lookup_history = trim_history (m.lookup_history ++ m.lookup ∷ []);
      lookup_forward = [];
    }

-- `SetScreen`
unfoldable pub set_screen : Screen → Model → Fallible (Unit {0}) × Model
set_screen screen m =
    if is_valid_screen screen
    then (
      done tt,
      record (push_history screen m) {
        current = screen;
        help_visible = false;
        status = status status_info "Switched to %s." (text screen ∷ []);
      },
    )
    else (failed (message "unknown screen %q" (text screen ∷ [])), m)

unfoldable pub restored : Screen → Fallible (Unit {0}) × Model → Fallible (Unit {0}) × Model
restored screen (failed e, m) = (failed e, m)
restored screen (done u, m) = (
  done u,
  record m {
    status = status status_info "Restored screen %s from local cache." (text screen ∷ []);
    cache = record m.cache { last_screen = screen };
  },
)

-- `RestoreScreen`
unfoldable pub restore_screen : Screen → Model → Fallible (Unit {0}) × Model
restore_screen screen m = restored screen (set_screen screen m)

unfoldable pub if_ready : LookupSnapshot → List LookupSnapshot → List LookupSnapshot
if_ready lookup stack = if str_eq lookup.state "ready" then stack ++ lookup ∷ [] else stack

unfoldable pub if_set : Screen → List Screen → List Screen
if_set screen stack = if is_empty screen then stack else stack ++ screen ∷ []

-- `Back` in the lookup's history.
unfoldable pub back_lookup : List LookupSnapshot → LookupSnapshot → Model → Model
back_lookup init prev m = record m {
  lookup_history = init;
  lookup_forward = if_ready m.lookup m.lookup_forward;
  lookup = prev;
  help_visible = false;
  status = status status_info "Returned to %s %s." (text prev.kind ∷ text prev.query ∷ []);
}

-- `Back` in the history of screens.
unfoldable pub back_screen : Option (List Screen × Screen) → Model → Bool × Model
back_screen none m =
    (false, record m { status = status status_warn "No previous screen available." [] })
back_screen (some (init, last)) m =
    let moved = record m {
      history = init;
      forward = if_set m.current m.forward;
      current = last;
      help_visible = false;
    } in
    let shown =
      if str_eq last screen_live_feed
      then (restore_live_feed_monitoring_context moved).1
      else moved in
    (true, record shown { status = status status_info "Returned to %s." (text last ∷ []) })

unfoldable pub back_from : Option (List LookupSnapshot × LookupSnapshot) → Model → Bool × Model
back_from none m =
    if str_eq m.current screen_lookup && returns_to_live m.lookup.return_context
    then return_to_live_monitoring m
    else back_screen (unsnoc m.history) m
back_from (some (init, prev)) m =
    if str_eq m.current screen_lookup
    then (true, back_lookup init prev m)
    else back_screen (unsnoc m.history) m

-- `Back`
unfoldable pub back : Model → Bool × Model
unfolding back_from
back m = back_from (unsnoc m.lookup_history) m

-- `Forward` in the lookup's history.
unfoldable pub forward_lookup : List LookupSnapshot → LookupSnapshot → Model → Model
forward_lookup init next m = record m {
  lookup_forward = init;
  lookup_history = if_ready m.lookup m.lookup_history;
  lookup = next;
  help_visible = false;
  status = status status_info "Moved forward to %s %s." (text next.kind ∷ text next.query ∷ []);
}

unfoldable pub forward_screen : Option (List Screen × Screen) → Model → Bool × Model
forward_screen none m =
    (false, record m { status = status status_warn "No next screen available." [] })
forward_screen (some (init, next)) m = (
  true,
  record m {
    forward = init;
    history = if_set m.current m.history;
    current = next;
    help_visible = false;
    status = status status_info "Moved forward to %s." (text next ∷ []);
  },
)

unfoldable pub forward_from : Option (List LookupSnapshot × LookupSnapshot) → Model → Bool × Model
forward_from none m = forward_screen (unsnoc m.forward) m
forward_from (some (init, next)) m =
    if str_eq m.current screen_lookup
    then (true, forward_lookup init next m)
    else forward_screen (unsnoc m.forward) m

-- `Forward`
unfoldable pub forward : Model → Bool × Model
unfolding forward_from
forward m = forward_from (unsnoc m.lookup_forward) m
