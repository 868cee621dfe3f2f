-- ===== src/App/History/RoundTrip.antt =====
-- Going back and then forward ends where it began.
use stellarview_tui.Prelude.{
  ◌≡◌, refl, ◌∙◌, ap, true, false, inl, inr, Option, none, some, List, [], ◌∷◌, ◌++◌, str_eq,
  Bool-cases, Option-cases,
}
use stellarview_tui.Prelude.Text.{is_empty}
use stellarview_tui.App.State.{Screen, LookupSnapshot, Model}
use stellarview_tui.App.Monitoring.{
  screen_lookup, screen_live_feed, restore_live_feed_monitoring_context, restore_context,
}
use stellarview_tui.App.Feed.{apply_live_feed_view}
use stellarview_tui.App.History.{
  is_valid_screen, push_history, set_screen, back_screen, back_from, back_lookup, forward_lookup,
  if_ready, unsnoc, back, forward,
}

pub unsnoc-append : {A : Type 0} (xs : List A) (x : A) → unsnoc (xs ++ x ∷ []) ≡ some (xs, x)
unfolding unsnoc
unsnoc-append [] x = refl
unsnoc-append (y ∷ xs) x = rw (unsnoc-append xs x)

some-injective : {A : Type 0} {a b : A} → some a ≡ some b → a ≡ b
some-injective e = cc

module _ {A : Type 0} where
  unsnoc-none : (xs : List A) → unsnoc xs ≡ none → xs ≡ []
  unfolding unsnoc
  unsnoc-none [] h = refl
  unsnoc-none (x ∷ xs) h = elim (Option-cases (unsnoc xs)) [
    | inl e ↦ let e' : Path (Option (List A × A)) (some ([], x)) none = rw e at h in cc
    | inr ((init, last), e) ↦
        let e' : Path (Option (List A × A)) (some (x ∷ init, last)) none = rw e at h in cc
  ]

  pub unsnoc-some :
      (xs init : List A) (last : A) → unsnoc xs ≡ some (init, last) → xs ≡ init ++ last ∷ []
  unfolding unsnoc
  unsnoc-some [] init last h = cc
  unsnoc-some (x ∷ xs) init last h = elim (Option-cases (unsnoc xs)) [
    | inl e ↦
        let e' : Path (Option (List A × A)) (some ([], x)) (some (init, last)) = rw e at h in
        ap (λ l. x ∷ l) (unsnoc-none xs e)
        ∙ ap (λ (p : List A × A). p.0 ++ p.1 ∷ []) (some-injective e')
    | inr ((init', last'), e) ↦
        let e' : Path (Option (List A × A)) (some (x ∷ init', last')) (some (init, last)) =
          rw e at h in
        ap (λ l. x ∷ l) (unsnoc-some xs init' last' e)
        ∙ ap (λ (p : List A × A). p.0 ++ p.1 ∷ []) (some-injective e')
  ]

-- On the lookup screen, when the lookup and the one before it (the last of the lookup history) are
-- both ready, going back to that one and then forward again gives the same lookup, the same history and the same forward history.
pub forward-back_lookup :
    (earlier : List LookupSnapshot) (last : LookupSnapshot) (m : Model)
    → m.lookup_history ≡ earlier ++ last ∷ []
    → str_eq m.current screen_lookup ≡ true
    → str_eq m.lookup.state "ready" ≡ true
    → str_eq last.state "ready" ≡ true
    → let there = (back m).1 in
      let again = (forward there).1 in
      (there.lookup ≡ last)
      × (again.lookup ≡ m.lookup)
      × (again.lookup_history ≡ m.lookup_history)
      × (again.lookup_forward ≡ m.lookup_forward)
unfolding back forward back_lookup unsnoc if_ready forward_lookup
forward-back_lookup earlier last m e here ready was =
    rw
      (
        e,
        unsnoc-append earlier last,
        here,
        ready,
        unsnoc-append m.lookup_forward m.lookup,
        here,
        was,
      )
      (refl, refl, refl, refl)

back_from-elsewhere :
    (p : Option (List LookupSnapshot × LookupSnapshot)) (m : Model)
    → str_eq m.current screen_lookup ≡ false
    → back_from p m ≡ back_screen (unsnoc m.history) m
unfolding back_from
back_from-elsewhere none m h = rw h
back_from-elsewhere (some (init, prev)) m h = rw h

keeps_place :
    (m : Model)
    → ((restore_live_feed_monitoring_context m).1.current ≡ m.current)
      × ((restore_live_feed_monitoring_context m).1.history ≡ m.history)
unfolding restore_live_feed_monitoring_context restore_context apply_live_feed_view
keeps_place m = elim (Bool-cases m.live_feed_monitoring.active) [
  | inl active ↦ rw active (refl, refl)
  | inr idle ↦ rw idle (refl, refl)
]

back_screen-place :
    (earlier : List Screen) (last : Screen) (m : Model)
    → ((back_screen (some (earlier, last)) m).1.current ≡ last)
      × ((back_screen (some (earlier, last)) m).1.history ≡ earlier)
unfolding back_screen
back_screen-place earlier last m = elim (Bool-cases (str_eq last screen_live_feed)) [
  | inl live ↦ rw live (keeps_place _)
  | inr plain ↦ rw plain (refl, refl)
]

back-place :
    (earlier : List Screen) (last : Screen) (t : Model)
    → str_eq t.current screen_lookup ≡ false
    → t.history ≡ earlier ++ last ∷ []
    → ((back t).1.current ≡ last) × ((back t).1.history ≡ earlier)
unfolding back back_screen
back-place earlier last t elsewhere e =
    rw (back_from-elsewhere (unsnoc t.lookup_history) t elsewhere, e, unsnoc-append earlier last)
      (back_screen-place earlier last t)

switched :
    (screen : Screen) (m : Model)
    → is_valid_screen screen ≡ true
    → is_empty m.current ≡ false
    → str_eq m.current screen ≡ false
    → ((set_screen screen m).1.current ≡ screen)
      × ((set_screen screen m).1.history ≡ m.history ++ m.current ∷ [])
unfolding set_screen push_history
switched screen m valid set differs = rw (valid, set, differs) (refl, refl)

-- After a switch from a screen to another one that is valid and is not the lookup, going back
-- gives the screen and the history of before.
pub back-set_screen :
    (screen : Screen) (m : Model)
    → is_valid_screen screen ≡ true
    → is_empty m.current ≡ false
    → str_eq m.current screen ≡ false
    → str_eq screen screen_lookup ≡ false
    → let there = (set_screen screen m).1 in
      let again = (back there).1 in
      (there.current ≡ screen) × (again.current ≡ m.current) × (again.history ≡ m.history)
back-set_screen screen m valid set differs elsewhere =
    let (arrived, kept) = switched screen m valid set differs in
    let (current, history) =
      back-place m.history m.current (set_screen screen m).1 (rw arrived elsewhere) kept in
    (arrived, current, history)
