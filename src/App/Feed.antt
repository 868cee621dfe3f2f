-- ===== src/App/Feed.antt =====
-- The scrollback of the live feed and its view: tui/internal/app/model.go
-- (`mergeLiveFeedTransactions`) and live_feed.go (`applyLiveFeedView`).
pub mod Merge
pub mod Keys
pub mod Order
pub mod View
use stellarview_tui.Prelude.{
  ℕ, zero, suc, ◌+◌, ◌-◌, String, Bool, true, false, not, ◌&&◌, ◌||◌, Option, none, some, List, [],
  ◌∷◌, ◌++◌, ltb, ◌==◌, str_eq, length, take, drop, get_elem?, is_some, if◌then◌else◌,
}
use stellarview_tui.Prelude.Int.{ℤ, pos, negsuc, ltb_ℤ, leb_ℤ, pos_part, eq_ℤ}
use stellarview_tui.Prelude.Text.{trim_space, is_empty, str_lt}
use stellarview_tui.Prelude.Sort.{sort_stable}
use stellarview_tui.Client.Transactions.{TransactionSummary}
use stellarview_tui.App.State.{LiveFeedSnapshot, SelectionSnapshot, Model}
use stellarview_tui.App.Sources.{clamp_index}
use stellarview_tui.App.Filter.{filter_live_feed_transactions, format_live_feed_filter}

abbrev pub default_live_feed_scrollback : ℕ
default_live_feed_scrollback = 100

-- The comparison that sorts the scrollback: the newest first.
unfoldable pub newer : TransactionSummary → TransactionSummary → Bool
newer a b =
    if not (a.ledger_sequence == b.ledger_sequence)
    then ltb b.ledger_sequence a.ledger_sequence
    else if not (eq_ℤ a.created_at b.created_at)
    then ltb_ℤ b.created_at a.created_at
    else if not (eq_ℤ a.application_order b.application_order)
    then ltb_ℤ b.application_order a.application_order
    else str_lt a.hash b.hash

-- `liveFeedTransactionKey`
abbrev pub transaction_key : TransactionSummary → String
transaction_key tx = trim_space tx.hash

-- The map `seen`, as the list of its keys.
unfoldable pub is_seen : String → List String → Bool
is_seen key [] = false
is_seen key (k ∷ ks) = str_eq k key || is_seen key ks

unfoldable pub keys_of : List TransactionSummary → List String
keys_of [] = []
keys_of (tx ∷ txs) =
    if is_empty (transaction_key tx) then keys_of txs else transaction_key tx ∷ keys_of txs

-- The loop that collects what was not seen.
unfoldable pub fresh : List String → List TransactionSummary → List TransactionSummary
fresh seen [] = []
fresh seen (tx ∷ txs) =
    let key = transaction_key tx in
    let with_it = tx ∷ fresh (key ∷ seen) txs in
    let without = fresh seen txs in if is_empty key || is_seen key seen then without else with_it

-- What is merged, before the scrollback is cut off.
unfoldable pub merged : List TransactionSummary → List TransactionSummary → List TransactionSummary
merged transactions all = sort_stable newer (fresh (keys_of all) transactions ++ all)

-- The scrollback after `mergeLiveFeedTransactions`.
unfoldable pub merge_scrollback :
    List TransactionSummary → List TransactionSummary → List TransactionSummary
merge_scrollback [] all = all
merge_scrollback (tx ∷ txs) all = take default_live_feed_scrollback (merged (tx ∷ txs) all)

-- `mergeLiveFeedTransactions`; gives the number of transactions that are new.
unfoldable pub merge_live_feed_transactions : List TransactionSummary → Model → ℕ × Model
merge_live_feed_transactions transactions m = (
  length (fresh (keys_of m.live_feed_all) transactions),
  record m { live_feed_all = merge_scrollback transactions m.live_feed_all },
)

-- The row at an index, if it is within the rows.
abbrev pub row_at : {A : Type 0} → List A → ℤ → Option A
row_at rows (pos n) = get_elem? rows n
row_at rows (negsuc n) = none

pub key_of_row : Option TransactionSummary → String
key_of_row none = ""
key_of_row (some tx) = transaction_key tx

-- Where a row with a key stands, by a test on keys.
unfoldable pub find_key : (String → String → Bool) → String → List TransactionSummary → ℕ → Option ℕ
find_key same key [] i = none
find_key same key (tx ∷ txs) i =
    let later = find_key same key txs (suc i) in
    if same (transaction_key tx) key then some i else later

-- The rows in the view, and the replay offset that goes with them.
unfoldable pub replay_view : Bool → ℤ → List TransactionSummary → List TransactionSummary × ℤ
replay_view paused offset filtered =
    let start =
      if leb_ℤ (pos (length filtered)) offset then length filtered - 1 else pos_part offset in
    if paused && ltb_ℤ (pos 0) offset then (drop start filtered, pos start) else (filtered, offset)

view_state : List TransactionSummary → List TransactionSummary → LiveFeedSnapshot → String
view_state (row ∷ rows) all feed = "ready"
view_state [] all feed = if ltb 0 (length all) || not feed.available then "empty" else feed.state

select : Option ℕ → ℤ → List TransactionSummary → ℤ
select (some i) index rows = pos i
select none index rows = clamp_index index (pos (length rows))

-- The index of the row that was selected before, by its key; else the old index within bounds.
unfoldable pub selected_index : String → ℤ → List TransactionSummary → ℤ
unfolding select
selected_index key index rows =
    select (if is_empty key then none else find_key str_eq key rows 0) index rows

-- `applyLiveFeedView`
unfoldable pub apply_live_feed_view : ℕ → Model → Model
unfolding key_of_row view_state
apply_live_feed_view added m =
    let selected_hash =
      key_of_row (row_at m.live_feed.recent_transactions m.selection.live_feed_index) in
    let (rows, offset) =
      replay_view m.live_feed.paused m.live_feed.replay_offset
        (filter_live_feed_transactions m.live_feed_all m.live_feed_filter_spec) in
    record m {
      live_feed = record m.live_feed {
        replay_offset = offset;
        filter = format_live_feed_filter m.live_feed_filter_spec;
        recent_transactions = rows;
        scrollback = m.live_feed_all;
        scrollback_count = pos (length m.live_feed_all);
        max_scrollback = pos default_live_feed_scrollback;
        last_update_count = pos added;
        state = view_state rows m.live_feed_all m.live_feed;
      };
      selection = record m.selection {
        live_feed_index = selected_index selected_hash m.selection.live_feed_index rows;
      };
    }
