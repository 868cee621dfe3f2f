-- ===== src/Pipeline/Ledger.antt =====
-- The ingestion of one ledger: `ProcessOneLedger` of tui-indexer/internal/pipeline/live.go, with
-- the batch inserts of tui-indexer/internal/store/postgres.go as it calls them.
pub mod Effect
pub mod Commit
pub mod Again
pub mod Ends
use stellarview_tui.Prelude.{
  ℕ, suc, ◌+◌, String, Bool, true, false, ◌&&◌, not, Option, none, some, List, [], ◌∷◌, ◌++◌,
  str_eq, if◌then◌else◌, length,
}
use stellarview_tui.Prelude.Text.{is_empty}
use stellarview_tui.Prelude.Words.{u32, int32_of}
use stellarview_tui.Store.Rows.{
  Ledger, Transaction, Operation, TokenEvent, ContractEvent, DetectedContract,
}
use stellarview_tui.Store.Db.{
  Db, insert_ledger, insert_transaction_batch, insert_operation_batch, insert_token_event_batch,
  insert_contract_event_batch, set_last_ingested_ledger,
}
use stellarview_tui.Pipeline.Source.{LedgerEntry, TransactionEntry}
use stellarview_tui.Pipeline.Exec.{
  Failure, Result, ok, err, unfinished, Exec, pure, fail, wrapping, ◌>>=◌, ◌>>◌,
}
use stellarview_tui.Pipeline.Services.{
  Services, State, published_ledger, published_transactions, outside, pure_call,
}

-- The transactions and operations collected from a ledger, with the running `opCount`.
pub record Collected : Type 0 where
  pub txs : List Transaction
  pub ops : List Operation
  pub op_count : ℕ

abbrev pub nothing_collected : Collected
nothing_collected = record { txs = []; ops = []; op_count = 0 }

unfoldable pub count_status : Bool → List TransactionEntry → ℕ
count_status wanted [] = 0
count_status true (tx ∷ txs) =
    if str_eq tx.status "SUCCESS" then suc (count_status true txs) else count_status true txs
count_status false (tx ∷ txs) =
    if str_eq tx.status "SUCCESS" then count_status false txs else suc (count_status false txs)

module _ (services : Services) where
  open services use {
    World, statement_error, ledger_from_rpc, transaction_from_rpc, operations_from_rpc,
    enrich_soroban_operations, token_events_from_ledger_meta, contract_events_from_transaction,
    enrich_contract_events, detect_new_contracts,
  }

  -- A statement that changes the database, unless it fails: then nothing is written.
  unfoldable pub settle : (Db → Db) → Option Failure → Exec (State World) Unit
  settle change none s = (ok tt, record s { db = change s.db })
  settle change (some e) s = (err e, s)

  unfoldable pub statement : (Db → Db) → Exec (State World) Unit
  unfolding settle
  statement change s =
      let (problem, w) = statement_error s.world in settle change problem (record s { world = w })

  -- `if len(rows) == 0 { return nil }`, else one database transaction
  unfoldable pub batch : {A : Type 0} → (List A → Db → Db) → List A → Exec (State World) Unit
  batch insert [] = pure tt
  batch insert (row ∷ rows) = statement (insert (row ∷ rows))

  -- One round of the first loop. Transactions and operations that do not decode are skipped.
  pub collect_one : TransactionEntry → Collected → World → Collected × World
  collect_one entry c w = elim (transaction_from_rpc entry) [
    | ok tx ↦ elim (operations_from_rpc entry) [
      | ok ops ↦
          let (enriched, w') = enrich_soroban_operations ops entry w in
          (
            record {
              txs = c.txs ++ tx ∷ [];
              ops = c.ops ++ enriched;
              op_count = u32 (c.op_count + length enriched);
            },
            w',
          )
      | _ ↦ (record c { txs = c.txs ++ tx ∷ [] }, w)
    ]
    | _ ↦ (c, w)
  ]

  unfoldable pub collect : List TransactionEntry → Collected → World → Collected × World
  unfolding collect_one
  collect [] c w = (c, w)
  collect (entry ∷ entries) c w = let (c', w') = collect_one entry c w in collect entries c' w'

  -- The loop over the contract events; what does not decode is skipped.
  unfoldable pub collect_contract_events : List TransactionEntry → List ContractEvent
  collect_contract_events [] = []
  collect_contract_events (entry ∷ entries) =
      let rest = collect_contract_events entries in
      elim (contract_events_from_transaction entry) [ ok events ↦ events ++ rest | _ ↦ rest ]

  -- Token events that do not decode are dropped for the whole ledger.
  unfoldable pub token_events_of : String → List TokenEvent
  token_events_of metadata_xdr = elim (token_events_from_ledger_meta metadata_xdr) [
    | ok events ↦ events
    | _ ↦ []
  ]

  unfoldable pub count_ledger : Ledger → List TransactionEntry → Collected → Ledger
  count_ledger ledger entries c = record ledger {
    transaction_count = int32_of (length entries);
    successful_tx_count = int32_of (count_status true entries);
    failed_tx_count = int32_of (count_status false entries);
    operation_count = int32_of c.op_count;
  }

  -- The new contracts that a goroutine is started for, when the pipeline has an RPC client.
  new_contracts : Bool → LedgerEntry → Ledger → List DetectedContract
  new_contracts has_rpc entry ledger =
      if has_rpc && not (is_empty entry.metadata_xdr)
      then (elim (detect_new_contracts entry.metadata_xdr entry.sequence ledger.closed_at) [
        | ok detected ↦ detected
        | _ ↦ []
      ])
      else []

  unfoldable pub spawn_contract_specs : Bool → LedgerEntry → Ledger → Exec (State World) Unit
  unfolding new_contracts
  spawn_contract_specs has_rpc entry ledger s =
      (ok tt, record s { spawned = s.spawned ++ new_contracts has_rpc entry ledger })

  -- The publisher's errors are dropped.
  unfoldable pub publish : Bool → Ledger → Collected → Exec (State World) Unit
  publish has_publisher ledger c s =
      let messages = published_ledger ledger ∷ published_transactions c.txs c.ops ∷ [] in
      (ok tt, record s { published = s.published ++ (if has_publisher then messages else []) })

  -- From the first write on.
  unfoldable pub store_ledger :
      Bool
      → Bool
      → LedgerEntry
      → Ledger
      → Collected
      → List TokenEvent
      → List ContractEvent
      → Exec (State World) Unit
  store_ledger has_rpc has_publisher entry ledger c token_events contract_events = do
    wrapping "insert ledger: %w" [] (statement (insert_ledger ledger))
    wrapping "insert transactions: %w" [] (batch insert_transaction_batch c.txs)
    wrapping "insert operations: %w" [] (batch insert_operation_batch c.ops)
    spawn_contract_specs has_rpc entry ledger
    wrapping "insert token events: %w" [] (batch insert_token_event_batch token_events)
    wrapping "insert contract events: %w" [] (batch insert_contract_event_batch contract_events)
    wrapping "update cursor: %w" [] (statement (set_last_ingested_ledger entry.sequence))
    publish has_publisher ledger c

  -- `ProcessOneLedger`
  unfoldable pub process_one_ledger :
      Bool → Bool → LedgerEntry → List TransactionEntry → Exec (State World) Unit
  process_one_ledger has_rpc has_publisher entry entries = do
    ledger ← wrapping "transform ledger: %w" [] (pure_call (ledger_from_rpc entry))
    c ← outside (λ w. let (c, w') = collect entries nothing_collected w in (ok c, w'))
    contract_events ← outside (λ w.
        let (events, w') = enrich_contract_events (collect_contract_events entries) w in
        (ok events, w'))
    store_ledger has_rpc has_publisher entry (count_ledger ledger entries c) c
        (token_events_of entry.metadata_xdr) contract_events
