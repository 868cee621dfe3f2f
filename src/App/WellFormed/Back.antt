-- ===== src/App/WellFormed/Back.antt =====
-- Going back and forward keeps the model well formed.
use stellarview_tui.Prelude.{◌≡◌, refl, Bool, Option, none, some, List, str_eq, if-either, arith}
use stellarview_tui.App.State.{Screen, LookupSnapshot, Model}
use stellarview_tui.App.Monitoring.{screen_live_feed, screen_lookup}
use stellarview_tui.App.History.{
  unsnoc, back_lookup, back_screen, back_from, back, forward_lookup, forward_screen, forward_from,
  forward,
}
use stellarview_tui.App.WellFormed.{WellFormed, with_lookups, with_screens}
use stellarview_tui.App.WellFormed.Moves.{
  unsnoc-length, unsnoc-valid, length-if_ready, if_set-valid, return_to_live_monitoring-WellFormed,
  restore_live_feed_monitoring_context-WellFormed,
}

-- Back and forward: a lookup moves from one stack to the other, or a screen does.
back_lookup-WellFormed :
    (init : List LookupSnapshot) (prev : LookupSnapshot) (m : Model)
    → unsnoc m.lookup_history ≡ some (init, prev)
    → WellFormed m
    → WellFormed (back_lookup init prev m)
unfolding back_lookup
back_lookup-WellFormed init prev m e h =
    let b = h.bounded in
    with_lookups
      (omega (
        arith,
        b,
        unsnoc-length m.lookup_history init prev e,
        length-if_ready m.lookup m.lookup_forward,
      ))
      h

forward_lookup-WellFormed :
    (init : List LookupSnapshot) (next : LookupSnapshot) (m : Model)
    → unsnoc m.lookup_forward ≡ some (init, next)
    → WellFormed m
    → WellFormed (forward_lookup init next m)
unfolding forward_lookup
forward_lookup-WellFormed init next m e h =
    let b = h.bounded in
    with_lookups
      (omega (
        arith,
        b,
        unsnoc-length m.lookup_forward init next e,
        length-if_ready m.lookup m.lookup_history,
      ))
      h

back_screen-WellFormed :
    (p : Option (List Screen × Screen)) (m : Model)
    → unsnoc m.history ≡ p
    → WellFormed m
    → WellFormed (back_screen p m).1
unfolding back_screen
back_screen-WellFormed none m e h = h
back_screen-WellFormed (some (init, last)) m e h =
    let (earlier, here) = unsnoc-valid m.history init last e h.earlier in
    let moved = with_screens here earlier (if_set-valid m.current m.forward h.here h.later) h in
    if-either WellFormed (str_eq last screen_live_feed) _ _
      (restore_live_feed_monitoring_context-WellFormed _ moved) moved

forward_screen-WellFormed :
    (p : Option (List Screen × Screen)) (m : Model)
    → unsnoc m.forward ≡ p
    → WellFormed m
    → WellFormed (forward_screen p m).1
unfolding forward_screen
forward_screen-WellFormed none m e h = h
forward_screen-WellFormed (some (init, next)) m e h =
    let (later, here) = unsnoc-valid m.forward init next e h.later in
    with_screens here (if_set-valid m.current m.history h.here h.earlier) later h

back_from-WellFormed :
    (p : Option (List LookupSnapshot × LookupSnapshot)) (m : Model)
    → unsnoc m.lookup_history ≡ p
    → WellFormed m
    → WellFormed (back_from p m).1
unfolding back_from
back_from-WellFormed none m e h =
    if-either (λ (r : Bool × Model). WellFormed r.1) _ _ _
      (return_to_live_monitoring-WellFormed m h) (back_screen-WellFormed _ m refl h)
back_from-WellFormed (some (init, prev)) m e h =
    if-either (λ (r : Bool × Model). WellFormed r.1) (str_eq m.current screen_lookup) _ _
      (back_lookup-WellFormed init prev m e h) (back_screen-WellFormed _ m refl h)

pub back-WellFormed : (m : Model) → WellFormed m → WellFormed (back m).1
unfolding back
back-WellFormed m h = back_from-WellFormed _ m refl h

forward_from-WellFormed :
    (p : Option (List LookupSnapshot × LookupSnapshot)) (m : Model)
    → unsnoc m.lookup_forward ≡ p
    → WellFormed m
    → WellFormed (forward_from p m).1
unfolding forward_from
forward_from-WellFormed none m e h = forward_screen-WellFormed _ m refl h
forward_from-WellFormed (some (init, next)) m e h =
    if-either (λ (r : Bool × Model). WellFormed r.1) (str_eq m.current screen_lookup) _ _
      (forward_lookup-WellFormed init next m e h) (forward_screen-WellFormed _ m refl h)

pub forward-WellFormed : (m : Model) → WellFormed m → WellFormed (forward m).1
unfolding forward
forward-WellFormed m h = forward_from-WellFormed _ m refl h
