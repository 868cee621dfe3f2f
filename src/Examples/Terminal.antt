-- ===== src/Examples/Terminal.antt =====
-- The theorems on the terminal client at concrete models.
use stellarview_tui.Prelude.{
  ℕ, zero, suc, ◌≡◌, refl, String, true, false, ◌||◌, none, List, [], ◌∷◌, ◌++◌, drop, All,
}
use stellarview_tui.Prelude.Int.{pos}
use stellarview_tui.Prelude.Text.{trim_space}
use stellarview_tui.Prelude.Sort.{Pairwise, sort_stable, insert_by}
use stellarview_tui.Config.{Config, no_profile}
use stellarview_tui.Client.Transactions.{TransactionSummary}
use stellarview_tui.App.State.{CacheSnapshot, LookupSnapshot, LiveFeedStreamUpdate, Model}
use stellarview_tui.App.Filter.{matches_live_feed_filter}
use stellarview_tui.App.Feed.{
  newer, transaction_key, keys_of, is_seen, fresh, merged, merge_scrollback, apply_live_feed_view,
  default_live_feed_scrollback,
}
use stellarview_tui.App.Feed.Merge.{IsDistinct, merge_scrollback-IsDistinct}
use stellarview_tui.App.Feed.Keys.{known, merged-keys, merge_scrollback-again}
use stellarview_tui.App.Feed.Order.{Precedes, merge_scrollback-newest}
use stellarview_tui.Examples.Nodes.{mark}
use stellarview_tui.App.Feed.View.{
  InRange, apply_live_feed_view-InRange, apply_live_feed_view-matches,
}
use stellarview_tui.App.Stream.{apply_all, set_live_feed_paused}
use stellarview_tui.App.Stream.Pause.{merge_all, set_live_feed_paused-apply_all}
use stellarview_tui.App.Monitoring.{no_lookup, screen_live_feed, screen_lookup, screen_settings}
use stellarview_tui.App.History.{back, forward, set_screen, is_valid_screen}
use stellarview_tui.App.History.RoundTrip.{forward-back_lookup, back-set_screen}
use stellarview_tui.App.WellFormed.{WellFormed}
use stellarview_tui.App.Session.{
  new_model, step, started, then_step, streamed, screen_set, commanded,
}
use stellarview_tui.App.Session.Safety.{Reachable-WellFormed}

abbrev tx : String → ℕ → TransactionSummary
tx hash ledger = record {
  hash = hash;
  ledger_sequence = ledger;
  application_order = pos 1;
  account = "GA";
  operation_count = pos 1;
  status = pos 1;
  is_soroban = true;
  created_at = pos 0;
  primary_contract_id = "";
  primary_asset_code = "";
  primary_asset_issuer = "";
  primary_operation_type = "payment";
}

abbrev two : List TransactionSummary
two = tx "aa" 9 ∷ tx " bb" 8 ∷ []

-- A transaction for each of the first ledgers, the latest first.
abbrev many : ℕ → List TransactionSummary
many zero = []
many (suc n) = tx (mark (suc n)) (suc n) ∷ many n

abbrev full : List TransactionSummary
full = many 100

abbrev cfg : Config
cfg = record {
  product_name = "tui";
  default_profile = "main";
  profiles =
      record no_profile { name = "main"; network = "testnet"; rpc_endpoint = "http://rpc" } ∷ [];
  cache = record { driver = ""; path = "" };
}

abbrev no_cache : CacheSnapshot
no_cache = record {
  enabled = false;
  available = false;
  path = "";
  schema = pos 0;
  profiles = pos 0;
  last_screen = "";
  status = "";
  default_id = "main";
  default_label = "main";
}

abbrev pub fresh_start : Model
fresh_start = new_model cfg "/tmp/config" no_cache

abbrev update : List TransactionSummary → LiveFeedStreamUpdate
update txs = record { ledger = none; transactions = txs }

abbrev after_updates : Model
after_updates =
    step (commanded "live pause")
      (step (screen_set screen_live_feed) (step (streamed (update two)) fresh_start))

Reachable-WellFormed_example : WellFormed after_updates
Reachable-WellFormed_example = Reachable-WellFormed cfg "/tmp/config" no_cache after_updates (
    then_step (commanded "live pause") _
      (then_step (screen_set screen_live_feed) _ (then_step (streamed (update two)) _ started)))

abbrev base : Model
base = record fresh_start {
  live_feed = record fresh_start.live_feed { paused = true };
  live_feed_all = tx "aa" 9 ∷ [];
  live_feed_pending_stream = update (tx "cc" 10 ∷ []) ∷ [];
}

set_live_feed_paused-apply_all_example :
    let held = apply_all (update two ∷ []) base in
    let resumed = set_live_feed_paused false held in
    (held.live_feed_all ≡ base.live_feed_all)
    × (resumed.live_feed_all
        ≡ merge_all (base.live_feed_pending_stream ++ update two ∷ []) base.live_feed_all)
    × (resumed.live_feed_pending_stream ≡ [])
set_live_feed_paused-apply_all_example = set_live_feed_paused-apply_all (update two ∷ []) base refl

two-IsDistinct : IsDistinct two
unfolding trim_space
two-IsDistinct = ((refl, (refl, tt)), ((refl, tt), (tt, tt)))

merge_scrollback-IsDistinct_example :
    IsDistinct (merge_scrollback (tx "aa" 9 ∷ tx "cc" 10 ∷ []) two)
merge_scrollback-IsDistinct_example =
    merge_scrollback-IsDistinct (tx "aa" 9 ∷ tx "cc" 10 ∷ []) two two-IsDistinct

merged-keys_example :
    known "cc" (merged (tx "cc" 10 ∷ []) two) ≡ (known "cc" (tx "cc" 10 ∷ []) || known "cc" two)
merged-keys_example = merged-keys "cc" (tx "cc" 10 ∷ []) two

merge_scrollback-newest_example :
    Pairwise Precedes (merge_scrollback (tx "cc" 200 ∷ []) full)
    × All
        (λ kept.
          All (Precedes kept) (drop default_live_feed_scrollback (merged (tx "cc" 200 ∷ []) full)))
        (merge_scrollback (tx "cc" 200 ∷ []) full)
merge_scrollback-newest_example = merge_scrollback-newest (tx "cc" 200) [] full

-- The oldest transaction of a full scrollback makes place for a new one.
oldest_cut_off : drop default_live_feed_scrollback (merged (tx "cc" 200 ∷ []) full) ≡ tx "x" 1 ∷ []
unfolding merged sort_stable insert_by newer fresh keys_of is_seen trim_space mark
oldest_cut_off = refl

-- A new and an old transaction that are merged into a full scrollback: the old one is new again.
merge_scrollback-again_example :
    All
      (λ new.
        known
          (transaction_key new)
          (drop default_live_feed_scrollback (merged (tx "cc" 200 ∷ tx "old" 0 ∷ []) full))
        ≡ true)
      (fresh
        (keys_of (merge_scrollback (tx "cc" 200 ∷ tx "old" 0 ∷ []) full))
        (tx "cc" 200 ∷ tx "old" 0 ∷ []))
merge_scrollback-again_example = merge_scrollback-again (tx "cc" 200) (tx "old" 0 ∷ []) full

old_is_new :
    fresh
      (keys_of (merge_scrollback (tx "cc" 200 ∷ tx "old" 0 ∷ []) full))
      (tx "cc" 200 ∷ tx "old" 0 ∷ [])
    ≡ tx "old" 0 ∷ []
unfolding merge_scrollback merged sort_stable insert_by newer fresh keys_of is_seen trim_space mark
old_is_new = refl

apply_live_feed_view-InRange_example :
    InRange
      (apply_live_feed_view 1 base).selection.live_feed_index
      (apply_live_feed_view 1 base).live_feed.recent_transactions
apply_live_feed_view-InRange_example = apply_live_feed_view-InRange 1 base

apply_live_feed_view-matches_example :
    All
      (λ t. matches_live_feed_filter t base.live_feed_filter_spec ≡ true)
      (apply_live_feed_view 1 base).live_feed.recent_transactions
apply_live_feed_view-matches_example = apply_live_feed_view-matches 1 base

abbrev lookup_of : String → LookupSnapshot
lookup_of query = record no_lookup { query = query; kind = "ledger"; state = "ready" }

abbrev looking : Model
looking = record fresh_start {
  current = screen_lookup;
  lookup = lookup_of "7";
  lookup_history = lookup_of "5" ∷ lookup_of "6" ∷ [];
}

forward-back_lookup_example :
    let there = (back looking).1 in
    let again = (forward there).1 in
    (there.lookup ≡ lookup_of "6")
    × (again.lookup ≡ looking.lookup)
    × (again.lookup_history ≡ looking.lookup_history)
    × (again.lookup_forward ≡ looking.lookup_forward)
forward-back_lookup_example =
    forward-back_lookup (lookup_of "5" ∷ []) (lookup_of "6") looking refl refl refl refl

settings_valid : is_valid_screen screen_settings ≡ true
unfolding is_valid_screen
settings_valid = refl

back-set_screen_example :
    let there = (set_screen screen_settings looking).1 in
    let again = (back there).1 in
    (there.current ≡ screen_settings)
    × (again.current ≡ looking.current)
    × (again.history ≡ looking.history)
back-set_screen_example = back-set_screen screen_settings looking settings_valid refl refl refl
