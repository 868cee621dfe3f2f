-- ===== src/Store/Db.antt =====
-- The tables that ingestion writes, and what the statements of
-- tui-indexer/internal/store/postgres.go do to them when they succeed. The uniqueness rules are
-- those of tui-indexer/migrations: operations, token events and contract events have a generated
-- key only, so their inserts never meet a conflict.
pub mod Growth
use stellarview_tui.Prelude.{
  ℕ, zero, suc, ◌+◌, ◌-◌, ◌==◌, Bool, true, false, ◌&&◌, ◌||◌, not, Option, none, some, List, [],
  ◌∷◌, ◌++◌, ltb, leb, if◌then◌else◌, str_eq, take, count_from,
}
use stellarview_tui.Prelude.Int.{ℤ, pos, negsuc, leb_ℤ, ltb_ℤ, eq_ℤ, pos_part}
use stellarview_tui.Store.Rows.{Ledger, Transaction, Operation, TokenEvent, ContractEvent}

pub record Db : Type 0 where
  pub ledgers : List Ledger
  pub transactions : List Transaction
  pub operations : List Operation
  pub token_events : List TokenEvent
  pub contract_events : List ContractEvent
  -- the row `last_ingested_ledger` of ingestion_state
  pub last_ingested_ledger : Option ℕ

abbrev pub empty : Db
empty = record {
  ledgers = [];
  transactions = [];
  operations = [];
  token_events = [];
  contract_events = [];
  last_ingested_ledger = none;
}

-- PRIMARY KEY (sequence, closed_at)
unfoldable pub has_ledger : ℕ → ℤ → List Ledger → Bool
has_ledger sequence closed_at [] = false
has_ledger sequence closed_at (l ∷ ls) =
    l.sequence == sequence && eq_ℤ l.closed_at closed_at || has_ledger sequence closed_at ls

-- `InsertLedger`: ON CONFLICT (sequence, closed_at) DO NOTHING
unfoldable pub insert_ledger : Ledger → Db → Db
insert_ledger ledger db =
    if has_ledger ledger.sequence ledger.closed_at db.ledgers
    then db
    else record db { ledgers = db.ledgers ++ ledger ∷ [] }

-- UNIQUE (hash, created_at)
has_transaction : Transaction → List Transaction → Bool
has_transaction t [] = false
has_transaction t (u ∷ us) =
    str_eq u.hash t.hash && eq_ℤ u.created_at t.created_at || has_transaction t us

-- `InsertTransactionBatch`: ON CONFLICT DO NOTHING, row by row in one database transaction
unfoldable pub insert_transactions : List Transaction → List Transaction → List Transaction
unfolding has_transaction
insert_transactions [] table = table
insert_transactions (t ∷ ts) table =
    insert_transactions ts (if has_transaction t table then table else table ++ t ∷ [])

unfoldable pub insert_transaction_batch : List Transaction → Db → Db
unfolding insert_transactions
insert_transaction_batch txs db = record db {
  transactions = insert_transactions txs db.transactions;
}

-- `InsertOperationBatch`
unfoldable pub insert_operation_batch : List Operation → Db → Db
insert_operation_batch ops db = record db { operations = db.operations ++ ops }

-- `InsertTokenEventBatch`
unfoldable pub insert_token_event_batch : List TokenEvent → Db → Db
insert_token_event_batch events db = record db { token_events = db.token_events ++ events }

-- `InsertContractEventBatch`
unfoldable pub insert_contract_event_batch : List ContractEvent → Db → Db
insert_contract_event_batch events db = record db { contract_events = db.contract_events ++ events }

-- `GetLastIngestedLedger`: zero when there is no row
unfoldable pub get_last_ingested_ledger : Db → ℕ
get_last_ingested_ledger db = elim db.last_ingested_ledger [ none ↦ 0 | some seq ↦ seq ]

-- `SetLastIngestedLedger`: ON CONFLICT (key) DO UPDATE WHERE value < $1
unfoldable pub set_last_ingested_ledger : ℕ → Db → Db
set_last_ingested_ledger seq db = record db {
  last_ingested_ledger = elim db.last_ingested_ledger [
    | none ↦ some seq
    | some old ↦ if ltb old seq then some seq else some old
  ];
}

unfoldable pub has_sequence : ℕ → List Ledger → Bool
has_sequence n [] = false
has_sequence n (l ∷ ls) = l.sequence == n || has_sequence n ls

pub missing_among : List Ledger → List ℕ → List ℕ
unfolding has_sequence
missing_among ledgers [] = []
missing_among ledgers (n ∷ ns) =
    let rest = missing_among ledgers ns in if has_sequence n ledgers then rest else n ∷ rest

-- `FindMissingLedgerSequences`: the sequences of generate_series that the join leaves unmatched
unfoldable pub find_missing_ledger_sequences : ℕ → ℕ → ℤ → Db → List ℕ
unfolding missing_among
find_missing_ledger_sequences start end limit db =
    if start == 0 || ltb end start
    then []
    else let rows = if leb_ℤ limit (pos 0) || ltb_ℤ (pos 1000) limit then 100 else pos_part limit in
      take rows (missing_among db.ledgers (count_from start (end + 1 - start)))
