-- ===== src/App/WellFormed.antt =====
-- The well-formed models of the terminal client: the scrollback of the live feed, the stacks of
-- lookups and the screens.
pub mod Feed
pub mod Moves
pub mod Back
pub mod Views
pub mod Commands
use stellarview_tui.Prelude.{ℕ, ◌+◌, ◌≤◌, ◌≡◌, true, List, length, All}
use stellarview_tui.Prelude.Sort.{IsSorted}
use stellarview_tui.Client.Transactions.{TransactionSummary}
use stellarview_tui.App.State.{Screen, LookupSnapshot, Model}
use stellarview_tui.App.Feed.{newer, default_live_feed_scrollback}
use stellarview_tui.App.Feed.Merge.{IsDistinct}
use stellarview_tui.App.History.{is_valid_screen, lookup_history_limit}

abbrev pub IsValidScreen : Screen → Type 0
IsValidScreen screen = is_valid_screen screen ≡ true

-- The scrollback is short, sorted and without duplicates.
pub record FeedOk (all : List TransactionSummary) : Type 0 where
  pub short : length all ≤ default_live_feed_scrollback
  pub sorted : IsSorted newer all
  pub distinct : IsDistinct all

pub record Parts (all : List TransactionSummary)
    (lookup_history lookup_forward : List LookupSnapshot) (current : Screen)
    (history forward : List Screen) : Type 0 where
  pub feed : FeedOk all
  -- both stacks of lookups together
  pub bounded : length lookup_history + length lookup_forward ≤ lookup_history_limit
  pub here : IsValidScreen current
  pub earlier : All IsValidScreen history
  pub later : All IsValidScreen forward

abbrev pub WellFormed : Model → Type 0
WellFormed m = Parts m.live_feed_all m.lookup_history m.lookup_forward m.current m.history m.forward

pub with_feed :
    {all all' : List TransactionSummary} {lookups nexts : List LookupSnapshot} {current : Screen}
    {history forward : List Screen}
    → FeedOk all'
    → Parts all lookups nexts current history forward
    → Parts all' lookups nexts current history forward
with_feed feed h = record {
  feed = feed;
  bounded = h.bounded;
  here = h.here;
  earlier = h.earlier;
  later = h.later;
}

pub with_lookups :
    {all : List TransactionSummary} {lookups nexts lookups' nexts' : List LookupSnapshot}
    {current : Screen} {history forward : List Screen}
    → length lookups' + length nexts' ≤ lookup_history_limit
    → Parts all lookups nexts current history forward
    → Parts all lookups' nexts' current history forward
with_lookups bounded h = record {
  feed = h.feed;
  bounded = bounded;
  here = h.here;
  earlier = h.earlier;
  later = h.later;
}

pub with_screens :
    {all : List TransactionSummary} {lookups nexts : List LookupSnapshot}
    {current current' : Screen} {history forward history' forward' : List Screen}
    → IsValidScreen current'
    → All IsValidScreen history'
    → All IsValidScreen forward'
    → Parts all lookups nexts current history forward
    → Parts all lookups nexts current' history' forward'
with_screens here earlier later h = record {
  feed = h.feed;
  bounded = h.bounded;
  here = here;
  earlier = earlier;
  later = later;
}
