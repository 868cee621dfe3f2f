-- ===== src/Cache/Feed.antt =====
-- The cache of the live feed: tui/internal/cache/live_feed.go. The numbers are stored as 64-bit
-- integers and read back at their own width, which changes none of them.
use stellarview_tui.Prelude.{
  ℕ, String, Bool, ◌||◌, Option, none, some, List, [], ◌∷◌, ltb, ◌==◌, str_eq, take, if◌then◌else◌,
}
use stellarview_tui.Prelude.Int.{ℤ, pos, leb_ℤ, ltb_ℤ, eq_ℤ, pos_part}
use stellarview_tui.Prelude.Text.{is_empty}
use stellarview_tui.Prelude.Sort.{sort_stable}
use stellarview_tui.Cache.Rows.{LiveTransaction}
use stellarview_tui.Cache.Table.{select, upsert}
use stellarview_tui.Cache.Store.{given, broken, Method, query, time_or}

abbrev pub feed_key : LiveTransaction → List String
feed_key tx = tx.profile_id ∷ tx.hash ∷ []

-- DO UPDATE SET
abbrev pub updated_transaction : LiveTransaction → LiveTransaction → LiveTransaction
updated_transaction old new = record old {
  ledger_sequence = new.ledger_sequence;
  application_order = new.application_order;
  account = new.account;
  operation_count = new.operation_count;
  status = new.status;
  is_soroban = new.is_soroban;
  created_at = new.created_at;
  cached_at = new.cached_at;
}

unfoldable pub cached : ℕ → LiveTransaction → LiveTransaction
cached now tx = record tx { cached_at = time_or now tx.cached_at }

-- The loop of `UpsertLiveTransactions`, with what the statement of a row reports: the first error
-- ends it, and the rows before stay.
unfoldable pub upsert_live_transactions :
    (LiveTransaction → Option String) → ℕ → List LiveTransaction → Method (Unit {0})
upsert_live_transactions problem now [] tables = (given tt, tables)
upsert_live_transactions problem now (tx ∷ txs) tables =
    let skipped = upsert_live_transactions problem now txs tables in
    let stored = upsert_live_transactions problem now txs (record tables {
      live_transactions =
          upsert feed_key updated_transaction (cached now tx) tables.live_transactions;
    }) in
    if is_empty tx.profile_id || is_empty tx.hash then skipped else elim (problem tx) [
      | none ↦ stored
      | some e ↦ (broken "cache: upsert live transaction %q: %w" (tx.hash ∷ []) e, tables)
    ]

-- ORDER BY ledger_sequence DESC, application_order DESC, cached_at DESC
abbrev pub feed_before : LiveTransaction → LiveTransaction → Bool
feed_before a b =
    if (a.ledger_sequence == b.ledger_sequence)
    then if eq_ℤ a.application_order b.application_order
      then ltb b.cached_at a.cached_at
      else ltb_ℤ b.application_order a.application_order
    else ltb b.ledger_sequence a.ledger_sequence

abbrev pub feed_of : String → LiveTransaction → Bool
feed_of profile_id tx = str_eq tx.profile_id profile_id

-- `ListLiveTransactions`
unfoldable pub list_live_transactions : Option String → String → ℤ → Method (List LiveTransaction)
list_live_transactions problem profile_id limit =
    let n = if leb_ℤ limit (pos 0) then 100 else pos_part limit in
    query problem "cache: list live transactions: %w" [] (λ tables.
      given
        (take n (sort_stable feed_before (select (feed_of profile_id) tables.live_transactions))))
