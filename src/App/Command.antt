-- ===== src/App/Command.antt =====
-- Typed commands: `HandleCommand` of tui/internal/app/model.go, with the help overlay, the focus
-- and the selection.
use stellarview_tui.Prelude.{
  String, Bool, true, false, not, ◌&&◌, ◌||◌, Option, none, some, List, [], ◌∷◌, length, str_eq,
  if◌then◌else◌,
}
use stellarview_tui.Prelude.Int.{ℤ, pos, eq_ℤ, ◌+ℤ◌}
use stellarview_tui.Prelude.Text.{trim_space, to_lower, is_empty, fields}
use stellarview_tui.Client.Transactions.{TransactionSummary}
use stellarview_tui.App.State.{text, int, Fallible, failed, done, FocusArea, CacheSnapshot, Model}
use stellarview_tui.App.Sources.{
  status, status_info, status_warn, status_error, clamp_index, active_profile,
}
use stellarview_tui.App.Feed.{row_at}
use stellarview_tui.App.Stream.{
  set_live_feed_paused, set_live_feed_filter, set_live_feed_filter_command,
}
use stellarview_tui.App.Monitoring.{
  screen_home, screen_live_feed, screen_lookup, screen_settings, return_to_live_monitoring,
}
use stellarview_tui.App.History.{set_screen, back, forward}

-- `UpdateCacheSnapshot`
unfoldable pub update_cache_snapshot : CacheSnapshot → Model → Model
update_cache_snapshot snapshot m = record m { cache = snapshot }

-- `ToggleHelpOverlay`
unfoldable pub toggle_help_overlay : Model → Model
toggle_help_overlay m = record m {
  help_visible = not m.help_visible;
  status =
      status status_info "Keyboard help %s."
        (text (if m.help_visible then "hidden" else "shown") ∷ []);
}

-- `SetInfoStatus`
unfoldable pub set_info_status : String → Model → Model
set_info_status format m = record m { status = status status_info format [] }

-- `SetWarningStatus`
unfoldable pub set_warning_status : String → Model → Model
set_warning_status format m = record m { status = status status_warn format [] }

-- `SetErrorStatus`
unfoldable pub set_error_status : String → Model → Model
set_error_status format m = record m { status = status status_error format [] }

-- `MarkDefaultWatchApplied`
unfoldable pub mark_default_watch_applied : Model → Model
mark_default_watch_applied m = record m { default_watch_applied = true }

-- `ShouldApplyDefaultWatch`
unfoldable pub should_apply_default_watch : Model → Bool
should_apply_default_watch m = not m.default_watch_applied && str_eq m.current screen_live_feed

-- The area after the first one that has the focus, around from the last to the first.
area_after : FocusArea → FocusArea → List FocusArea → FocusArea
area_after focus first [] = first
area_after focus first (area ∷ []) = first
area_after focus first (area ∷ next ∷ areas) =
    let later = area_after focus first (next ∷ areas) in if str_eq area focus then next else later

next_area : FocusArea → List FocusArea → FocusArea
unfolding area_after
next_area focus [] = "main"
next_area focus (area ∷ areas) = area_after focus area (area ∷ areas)

-- `FocusNextAvailable`
unfoldable pub focus_next_available : List FocusArea → Model → Model
unfolding next_area
focus_next_available areas m =
    let area = next_area m.focus areas in
    record m { focus = area; status = status status_info "Focus moved to %s." (text area ∷ []) }

-- `FocusNext`
unfoldable pub focus_next : Model → Model
focus_next m = focus_next_available ("main" ∷ "sidebar" ∷ "status" ∷ []) m

unfoldable pub select_row : ℤ → Option TransactionSummary → Model → Model
select_row index none m = m
select_row index (some row) m = record m {
  selection = record m.selection { live_feed_index = index };
  status =
      status status_info "Selected live transaction %d: %s."
        (int (index +ℤ pos 1) ∷ text row.hash ∷ []);
}

-- `MoveSelection`
unfoldable pub move_selection : ℤ → Model → Model
move_selection delta m =
    let rows = m.live_feed.recent_transactions in
    let index = clamp_index (m.selection.live_feed_index +ℤ delta) (pos (length rows)) in
    if str_eq m.current screen_live_feed && not (eq_ℤ delta (pos 0))
    then select_row index (row_at rows index) m
    else m

-- `SelectedLiveTransaction`
unfoldable pub selected_live_transaction : Model → Option TransactionSummary
selected_live_transaction m =
    if str_eq m.current screen_live_feed
    then row_at m.live_feed.recent_transactions m.selection.live_feed_index
    else none

-- The model after a call whose error is dropped, or shown.
unfoldable pub dropped : Fallible (Unit {0}) × Model → Model
dropped (answer, m) = m

unfoldable pub shown_error : Fallible (Unit {0}) × Model → Model
shown_error (failed e, m) = record m { status = record { level = status_error; message = e } }
shown_error (done u, m) = m

unfoldable pub shown_return : Bool × Model → Model
shown_return (true, m) = m
shown_return (false, m) = record m {
  status = status status_warn "No live monitoring context to restore." [];
}

unfoldable pub filter_command : List String → Model → Model
filter_command [] m = record m {
  status =
      status status_error
        "Usage: live filter all|soroban|classic|clear|account|contract|asset|operation <value>." [];
}
filter_command (word ∷ words) m =
    shown_error (set_live_feed_filter_command ("filter" ∷ word ∷ words) m)

-- The words after "live".
unfoldable pub live_command : List String → Model → Model
live_command [] m = dropped (set_screen screen_live_feed m)
live_command (word ∷ words) m =
    if str_eq word "pause" || str_eq word "paused"
    then set_live_feed_paused true m
    else if str_eq word "resume" || str_eq word "start"
    then set_live_feed_paused false m
    else if str_eq word "filter"
    then filter_command words m
    else if str_eq word "all"
    then dropped (set_live_feed_filter "all" m)
    else if str_eq word "soroban"
    then dropped (set_live_feed_filter "soroban" m)
    else if str_eq word "classic"
    then dropped (set_live_feed_filter "classic" m)
    else if str_eq word "return" || str_eq word "monitor" || str_eq word "monitoring"
    then shown_return (return_to_live_monitoring m)
    else record m {
      status = status status_error "Usage: live pause|resume|return|filter all|soroban|classic." [];
    }

unfoldable pub plain_command : String → Model → Bool × Model
plain_command command m =
    let p = active_profile m in
    if str_eq command "home"
    then (true, dropped (set_screen screen_home m))
    else if str_eq command "live" || str_eq command "feed"
    then (true, dropped (set_screen screen_live_feed m))
    else if str_eq command "lookup" || str_eq command "search"
    then (true, dropped (set_screen screen_lookup m))
    else if str_eq command "settings" || str_eq command "config"
    then (true, dropped (set_screen screen_settings m))
    else if str_eq command "status"
    then (
      true,
      record m {
        status =
            status status_info "Profile %q targets %s at %s."
              (text p.name ∷ text p.network ∷ text p.rpc_endpoint ∷ []);
      },
    )
    else if str_eq command "back"
    then (true, (back m).1)
    else if str_eq command "forward" || str_eq command "next"
    then (true, (forward m).1)
    else if str_eq command "help"
    then (true, toggle_help_overlay m)
    else if str_eq command "quit" || str_eq command "exit"
    then (false, record m { status = status status_info "Shutting down tui." [] })
    else (true, record m { status = status status_error "Unknown command %q." (text command ∷ []) })

unfoldable pub command_words : String → List String → Model → Bool × Model
command_words command [] m = plain_command command m
command_words command (word ∷ words) m =
    if str_eq word "live" || str_eq word "feed"
    then (true, live_command words m)
    else plain_command command m

-- `HandleCommand`; false ends the interactive loop.
unfoldable pub handle_command : String → Model → Bool × Model
handle_command input m =
    let command = trim_space (to_lower input) in
    if is_empty command
    then (
      true,
      record m {
        status = status status_warn "Empty command. Use help to inspect available actions." [];
      },
    )
    else command_words command (fields command) m
