-- ===== src/App/WellFormed/Commands.antt =====
-- The modes of a detail view, the selection and typed commands keep the model well formed.
use stellarview_tui.Prelude.{
  String, Bool, true, false, not, ◌||◌, ◌&&◌, Option, none, some, List, [], ◌∷◌, str_eq, leb,
  length, is_some, if-either,
}
use stellarview_tui.Prelude.Int.{ℤ, pos, eq_ℤ}
use stellarview_tui.Prelude.Text.{trim_space, to_lower, is_empty}
use stellarview_tui.Client.Transactions.{TransactionSummary}
use stellarview_tui.App.State.{Fallible, failed, done, Model}
use stellarview_tui.App.Feed.{row_at}
use stellarview_tui.App.Monitoring.{screen_home, screen_live_feed, screen_lookup, screen_settings}
use stellarview_tui.App.Stream.{set_live_feed_filter}
use stellarview_tui.App.History.{set_screen}
use stellarview_tui.App.Workspace.{
  lookup_supports_contract_workspace_tabs, lookup_supports_visual_mode, invokes,
  available_contract_workspace_tabs, cycle_contract_workspace_tab, toggle_lookup_expand_all,
  toggle_lookup_visual_mode, set_mode, set_contract_decode_mode,
}
use stellarview_tui.App.Command.{
  select_row, move_selection, dropped, shown_error, shown_return, filter_command, live_command,
  plain_command, command_words, handle_command, toggle_help_overlay,
}
use stellarview_tui.App.WellFormed.{WellFormed}
use stellarview_tui.App.WellFormed.Feed.{
  set_live_feed_paused-WellFormed, set_live_feed_filter-WellFormed,
  set_live_feed_filter_command-WellFormed,
}
use stellarview_tui.App.WellFormed.Moves.{
  set_screen-WellFormed, return_to_live_monitoring-WellFormed,
}
use stellarview_tui.App.WellFormed.Back.{back-WellFormed, forward-WellFormed}

-- A well-formed model, and one that comes with an answer; records, so that the branches of a
-- conditional can be read off a goal.
record Fine (m : Model) : Type 0 where
  fine : WellFormed m

record Answers {A : Type 0} (r : A × Model) : Type 0 where
  fine : WellFormed r.1

pub cycle_contract_workspace_tab-WellFormed :
    (delta : ℤ) (m : Model) → WellFormed m → WellFormed (cycle_contract_workspace_tab delta m).1
unfolding cycle_contract_workspace_tab
cycle_contract_workspace_tab-WellFormed delta m h =
    let kept : Answers (cycle_contract_workspace_tab delta m) =
      if-either Answers (not (lookup_supports_contract_workspace_tabs m.lookup)) _ _
        (record { fine = h })
        (if-either Answers
          (eq_ℤ delta (pos 0)
            || leb (length (available_contract_workspace_tabs m.lookup.contract)) 1)
          _ _ (record { fine = h }) (record { fine = h })) in
    kept.fine

pub toggle_lookup_expand_all-WellFormed :
    (m : Model) → WellFormed m → WellFormed (toggle_lookup_expand_all m).1
unfolding toggle_lookup_expand_all
toggle_lookup_expand_all-WellFormed m h =
    let kept : Answers (toggle_lookup_expand_all m) =
      if-either Answers (not (str_eq m.lookup.state "ready") || is_some m.lookup.explorer) _ _
        (record { fine = h }) (record { fine = h }) in
    kept.fine

pub toggle_lookup_visual_mode-WellFormed :
    (m : Model) → WellFormed m → WellFormed (toggle_lookup_visual_mode m).1
unfolding toggle_lookup_visual_mode
toggle_lookup_visual_mode-WellFormed m h =
    let kept : Answers (toggle_lookup_visual_mode m) =
      if-either Answers (lookup_supports_visual_mode m.lookup) _ _ (record { fine = h })
        (record { fine = h }) in
    kept.fine

set_mode-WellFormed : (mode : String) (m : Model) → WellFormed m → WellFormed (set_mode mode m).1
unfolding set_mode
set_mode-WellFormed mode m h =
    let kept : Answers (set_mode mode m) =
      if-either Answers (str_eq mode "decoded" || str_eq mode "raw") _ _ (record { fine = h })
        (record { fine = h }) in
    kept.fine

pub set_contract_decode_mode-WellFormed :
    (mode : String) (m : Model) → WellFormed m → WellFormed (set_contract_decode_mode mode m).1
unfolding set_contract_decode_mode
set_contract_decode_mode-WellFormed mode m h =
    let moded = set_mode-WellFormed mode m h in
    let kept : Answers (set_contract_decode_mode mode m) =
      if-either Answers (str_eq m.lookup.kind "contract") _ _
        (if-either Answers (is_some m.lookup.contract) _ _ (record { fine = moded })
          (record { fine = h }))
        (if-either Answers (str_eq m.lookup.kind "event") _ _
          (if-either Answers (is_some m.lookup.event) _ _ (record { fine = moded })
            (record { fine = h }))
          (if-either Answers (str_eq m.lookup.kind "storage") _ _
            (if-either Answers (is_some m.lookup.storage_entry) _ _ (record { fine = moded })
              (record { fine = h }))
            (if-either Answers (str_eq m.lookup.kind "operation") _ _
              (if-either Answers (not (is_some m.lookup.operation)) _ _ (record { fine = h })
                (if-either Answers (invokes m.lookup.operation) _ _ (record { fine = moded })
                  (record { fine = h })))
              (record { fine = h })))) in
    kept.fine

select_row-WellFormed :
    (index : ℤ) (row : Option TransactionSummary) (m : Model)
    → WellFormed m
    → WellFormed (select_row index row m)
unfolding select_row
select_row-WellFormed index none m h = h
select_row-WellFormed index (some row) m h = h

pub move_selection-WellFormed :
    (delta : ℤ) (m : Model) → WellFormed m → WellFormed (move_selection delta m)
unfolding move_selection
move_selection-WellFormed delta m h =
    if-either WellFormed (str_eq m.current screen_live_feed && not (eq_ℤ delta (pos 0))) _ m
      (select_row-WellFormed _ (row_at m.live_feed.recent_transactions _) m h) h

dropped-WellFormed : (r : Fallible (Unit {0}) × Model) → WellFormed r.1 → WellFormed (dropped r)
unfolding dropped
dropped-WellFormed (answer, m) h = h

shown_error-WellFormed :
    (r : Fallible (Unit {0}) × Model) → WellFormed r.1 → WellFormed (shown_error r)
unfolding shown_error
shown_error-WellFormed (failed e, m) h = h
shown_error-WellFormed (done u, m) h = h

shown_return-WellFormed : (r : Bool × Model) → WellFormed r.1 → WellFormed (shown_return r)
unfolding shown_return
shown_return-WellFormed (true, m) h = h
shown_return-WellFormed (false, m) h = h

filter_command-WellFormed :
    (words : List String) (m : Model) → WellFormed m → WellFormed (filter_command words m)
unfolding filter_command
filter_command-WellFormed [] m h = h
filter_command-WellFormed (word ∷ words) m h =
    shown_error-WellFormed _ (set_live_feed_filter_command-WellFormed ("filter" ∷ word ∷ words) m h)

live_command-WellFormed :
    (words : List String) (m : Model) → WellFormed m → WellFormed (live_command words m)
unfolding live_command
live_command-WellFormed [] m h = dropped-WellFormed _ (set_screen-WellFormed screen_live_feed m h)
live_command-WellFormed (word ∷ words) m h =
    let filtered = λ (f : String).
      dropped-WellFormed (set_live_feed_filter f m) (set_live_feed_filter-WellFormed f m h) in
    let kept : Fine (live_command (word ∷ words) m) =
      if-either Fine (str_eq word "pause" || str_eq word "paused") _ _
        (record { fine = set_live_feed_paused-WellFormed true m h })
        (if-either Fine (str_eq word "resume" || str_eq word "start") _ _
          (record { fine = set_live_feed_paused-WellFormed false m h })
          (if-either Fine (str_eq word "filter") _ _
            (record { fine = filter_command-WellFormed words m h })
            (if-either Fine (str_eq word "all") _ _ (record { fine = filtered "all" })
              (if-either Fine (str_eq word "soroban") _ _ (record { fine = filtered "soroban" })
                (if-either Fine (str_eq word "classic") _ _ (record { fine = filtered "classic" })
                  (if-either Fine
                    (str_eq word "return" || str_eq word "monitor" || str_eq word "monitoring") _ _
                    (record {
                      fine = shown_return-WellFormed _ (return_to_live_monitoring-WellFormed m h);
                    })
                    (record { fine = h }))))))) in
    kept.fine

plain_command-WellFormed :
    (command : String) (m : Model) → WellFormed m → WellFormed (plain_command command m).1
unfolding plain_command toggle_help_overlay
plain_command-WellFormed command m h =
    let to = λ (screen : String).
      dropped-WellFormed (set_screen screen m) (set_screen-WellFormed screen m h) in
    let kept : Answers (plain_command command m) =
      if-either Answers (str_eq command "home") _ _ (record { fine = to screen_home })
        (if-either Answers (str_eq command "live" || str_eq command "feed") _ _
          (record { fine = to screen_live_feed })
          (if-either Answers (str_eq command "lookup" || str_eq command "search") _ _
            (record { fine = to screen_lookup })
            (if-either Answers (str_eq command "settings" || str_eq command "config") _ _
              (record { fine = to screen_settings })
              (if-either Answers (str_eq command "status") _ _ (record { fine = h })
                (if-either Answers (str_eq command "back") _ _
                  (record { fine = back-WellFormed m h })
                  (if-either Answers (str_eq command "forward" || str_eq command "next") _ _
                    (record { fine = forward-WellFormed m h })
                    (if-either Answers (str_eq command "help") _ _ (record { fine = h })
                      (if-either Answers (str_eq command "quit" || str_eq command "exit") _ _
                        (record { fine = h }) (record { fine = h }))))))))) in
    kept.fine

command_words-WellFormed :
    (command : String) (words : List String) (m : Model)
    → WellFormed m
    → WellFormed (command_words command words m).1
unfolding command_words
command_words-WellFormed command [] m h = plain_command-WellFormed command m h
command_words-WellFormed command (word ∷ words) m h =
    let kept : Answers (command_words command (word ∷ words) m) =
      if-either Answers (str_eq word "live" || str_eq word "feed") _ _
        (record { fine = live_command-WellFormed words m h })
        (record { fine = plain_command-WellFormed command m h }) in
    kept.fine

pub handle_command-WellFormed :
    (input : String) (m : Model) → WellFormed m → WellFormed (handle_command input m).1
unfolding handle_command
handle_command-WellFormed input m h =
    let kept : Answers (handle_command input m) =
      if-either Answers (is_empty (trim_space (to_lower input))) _ _ (record { fine = h })
        (record { fine = command_words-WellFormed _ _ m h }) in
    kept.fine
