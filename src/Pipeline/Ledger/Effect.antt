-- ===== src/Pipeline/Ledger/Effect.antt =====
-- What the ingestion of one ledger leaves in the database.
use mathlib.Core.List.{append-nil}
use stellarview_tui.Prelude.{
  ℕ, String, ◌≡◌, refl, sym, ap, ◌∙◌, Bool, Option, none, some, List, [], ◌∷◌, arith,
}
use stellarview_tui.Store.Rows.{Ledger, TokenEvent, ContractEvent}
use stellarview_tui.Store.Db.{
  Db, insert_ledger, insert_transaction_batch, insert_operation_batch, insert_token_event_batch,
  insert_contract_event_batch, set_last_ingested_ledger,
}
use stellarview_tui.Pipeline.Source.{LedgerEntry, TransactionEntry}
use stellarview_tui.Pipeline.Exec.{Failure, Result, ok, err, unfinished, wrapping, ◌>>=◌}
use stellarview_tui.Pipeline.Exec.Outcome.{Outcome, Leaves, Leaves-wrapping, Leaves-bind}
use stellarview_tui.Pipeline.Services.{Services, State}
use stellarview_tui.Pipeline.Ledger.{
  Collected, nothing_collected, settle, statement, batch, collect, collect_contract_events,
  token_events_of, count_ledger, spawn_contract_specs, publish, store_ledger, process_one_ledger,
}

-- The rows of one ledger, as a successful ingestion writes them.
abbrev pub with_rows : Ledger → Collected → List TokenEvent → List ContractEvent → Db → Db
with_rows ledger c token_events contract_events db = insert_contract_event_batch contract_events (
    insert_token_event_batch token_events
      (insert_operation_batch c.ops (insert_transaction_batch c.txs (insert_ledger ledger db))))

insert_operation_batch-nil : (db : Db) → insert_operation_batch [] db ≡ db
unfolding insert_operation_batch
insert_operation_batch-nil db = ap (λ l. record db { operations = l }) (append-nil db.operations)

insert_token_event_batch-nil : (db : Db) → insert_token_event_batch [] db ≡ db
unfolding insert_token_event_batch
insert_token_event_batch-nil db =
    ap (λ l. record db { token_events = l }) (append-nil db.token_events)

insert_contract_event_batch-nil : (db : Db) → insert_contract_event_batch [] db ≡ db
unfolding insert_contract_event_batch
insert_contract_event_batch-nil db =
    ap (λ l. record db { contract_events = l }) (append-nil db.contract_events)

insert_transaction_batch-nil : (db : Db) → insert_transaction_batch [] db ≡ db
unfolding insert_transaction_batch
insert_transaction_batch-nil db = refl

-- Inserting rows leaves the cursor alone.
cursor_insert_ledger :
    (l : Ledger) (db : Db) → (insert_ledger l db).last_ingested_ledger ≡ db.last_ingested_ledger
unfolding insert_ledger
cursor_insert_ledger l db = ground arith

pub cursor_with_rows :
    (l : Ledger) (c : Collected) (tokens : List TokenEvent) (events : List ContractEvent) (db : Db)
    → (with_rows l c tokens events db).last_ingested_ledger ≡ db.last_ingested_ledger
unfolding insert_transaction_batch insert_operation_batch insert_token_event_batch
    insert_contract_event_batch
cursor_with_rows l c tokens events db = cursor_insert_ledger l db

pub ledgers_with_rows :
    (l : Ledger) (c : Collected) (tokens : List TokenEvent) (events : List ContractEvent) (db : Db)
    → (with_rows l c tokens events db).ledgers ≡ (insert_ledger l db).ledgers
unfolding insert_transaction_batch insert_operation_batch insert_token_event_batch
    insert_contract_event_batch
ledgers_with_rows l c tokens events db = refl

module _ (services : Services) where
  open services use {World}

  -- The state after an action holds `db`, or its cursor is still `cursor`.
  abbrev pub Holds : Db → Unit {0} → State World → Type 0
  Holds db _ s = s.db ≡ db

  abbrev pub Cursor : Option ℕ → State World → Type 0
  Cursor cursor s = s.db.last_ingested_ledger ≡ cursor

  settle_at :
      (change : Db → Db) (problem : Option Failure) (s : State World) (cursor : Option ℕ)
      → Cursor cursor s
      → Outcome (Holds (change s.db)) (Cursor cursor) (settle services change problem s)
  unfolding settle
  settle_at change none s cursor h = refl
  settle_at change (some e) s cursor h = h

  Leaves-statement :
      (change : Db → Db) (s : State World) (cursor : Option ℕ)
      → Cursor cursor s
      → Leaves (Holds (change s.db)) (Cursor cursor) (statement services change) s
  unfolding statement
  Leaves-statement change s cursor h = record {
    at =
        let (problem, w) = services.statement_error s.world in
        settle_at change problem (record s { world = w }) cursor h;
  }

  -- The state after an insert that succeeded.
  abbrev Inserted : Db → Option ℕ → Unit {0} → State World → Type 0
  Inserted db cursor _ t = (t.db ≡ db) × Cursor cursor t

  Outcome-Inserted :
      (db : Db) (cursor : Option ℕ) (r : Result (Unit {0})) (t : State World)
      → db.last_ingested_ledger ≡ cursor
      → Outcome (Holds db) (Cursor cursor) (r, t)
      → Outcome (Inserted db cursor) (Cursor cursor) (r, t)
  Outcome-Inserted db cursor (ok _) t e h = (h, rw h e)
  Outcome-Inserted db cursor (err _) t e h = h
  Outcome-Inserted db cursor unfinished t e h = h

  Leaves-insert :
      (format : String) (change : Db → Db) (s : State World) (cursor : Option ℕ)
      → (change s.db).last_ingested_ledger ≡ cursor
      → Cursor cursor s
      → Leaves
          (Inserted (change s.db) cursor)
          (Cursor cursor)
          (wrapping format [] (statement services change))
          s
  Leaves-insert format change s cursor e h =
      let step = Leaves-statement change s cursor h in
      let (r, t) = statement services change s in
      Leaves-wrapping format [] _ s (record { at = Outcome-Inserted _ cursor r t e step.at })

  Leaves-batch :
      {A : Type 0} (format : String) (insert : List A → Db → Db) (rows : List A) (s : State World)
      (cursor : Option ℕ)
      → insert [] s.db ≡ s.db
      → (insert rows s.db).last_ingested_ledger ≡ cursor
      → Cursor cursor s
      → Leaves
          (Inserted (insert rows s.db) cursor)
          (Cursor cursor)
          (wrapping format [] (batch services insert rows))
          s
  unfolding batch
  Leaves-batch format insert [] s cursor n e h = record { at = (sym n, h) }
  Leaves-batch format insert (row ∷ rows) s cursor n e h =
      Leaves-insert format (insert (row ∷ rows)) s cursor e h

  -- The actions that do not touch the database.
  Leaves-spawn :
      (has_rpc : Bool) (entry : LedgerEntry) (ledger : Ledger) (s : State World) (cursor : Option ℕ)
      → Cursor cursor s
      → Leaves
          (Inserted s.db cursor)
          (Cursor cursor)
          (spawn_contract_specs services has_rpc entry ledger)
          s
  unfolding spawn_contract_specs
  Leaves-spawn has_rpc entry ledger s cursor h = record { at = (refl, h) }

  Leaves-publish :
      (has_publisher : Bool) (ledger : Ledger) (c : Collected) (s : State World) (cursor : Option ℕ)
      (db : Db)
      → s.db ≡ db
      → Leaves (Holds db) (Cursor cursor) (publish services has_publisher ledger c) s
  unfolding publish
  Leaves-publish has_publisher ledger c s cursor db e = record { at = e }

  module _ (has_rpc has_publisher : Bool) (entry : LedgerEntry) (ledger : Ledger) (c : Collected)
      (tokens : List TokenEvent) (events : List ContractEvent) where
    Leaves-store_ledger :
        (s : State World)
        → Leaves
            (Holds
              (set_last_ingested_ledger entry.sequence (with_rows ledger c tokens events s.db)))
            (Cursor s.db.last_ingested_ledger)
            (store_ledger services has_rpc has_publisher entry ledger c tokens events)
            s
    unfolding store_ledger insert_transaction_batch insert_operation_batch insert_token_event_batch
        insert_contract_event_batch
    Leaves-store_ledger s =
        let cursor = s.db.last_ingested_ledger in
        let set_cursor = set_last_ingested_ledger entry.sequence in
        Leaves-bind _ _ s
          (Leaves-insert _ (insert_ledger ledger) s cursor (cursor_insert_ledger ledger s.db) refl)
          λ _ t1 h1.
            Leaves-bind _ _ t1
              (Leaves-batch _ insert_transaction_batch c.txs t1 cursor refl h1.1 h1.1)
              λ _ t2 h2.
                Leaves-bind _ _ t2
                  (Leaves-batch _ insert_operation_batch c.ops t2 cursor
                    (insert_operation_batch-nil t2.db) h2.1 h2.1)
                  λ _ t3 h3.
                    Leaves-bind _ _ t3 (Leaves-spawn has_rpc entry ledger t3 cursor h3.1) λ _ t4 h4.
                      Leaves-bind _ _ t4
                        (Leaves-batch _ insert_token_event_batch tokens t4 cursor
                          (insert_token_event_batch-nil t4.db) h4.1 h4.1)
                        λ _ t5 h5.
                          Leaves-bind _ _ t5
                            (Leaves-batch _ insert_contract_event_batch events t5 cursor
                              (insert_contract_event_batch-nil t5.db) h5.1 h5.1)
                            λ _ t6 h6.
                              Leaves-bind _ _ t6
                                (Leaves-wrapping _ [] _ t6
                                  (Leaves-statement set_cursor t6 cursor h6.1))
                                λ _ t7 h7. Leaves-publish has_publisher ledger c t7 cursor _ (
                                  h7
                                  ∙ ap set_cursor (
                                      h6.0
                                      ∙ ap (insert_contract_event_batch events) (
                                          h5.0
                                          ∙ ap (insert_token_event_batch tokens) (
                                              h4.0
                                              ∙ h3.0
                                              ∙ ap (insert_operation_batch c.ops) (
                                                  h2.0
                                                  ∙ ap (insert_transaction_batch c.txs) h1.0)))))

  -- What the ingestion of a ledger collects before its first write.
  abbrev pub collected : List TransactionEntry → World → Collected × World
  collected entries w = collect services entries nothing_collected w

  abbrev pub enriched_events : List TransactionEntry → World → List ContractEvent × World
  enriched_events entries w =
      services.enrich_contract_events (collect_contract_events services entries)
        (collected entries w).1

  module _ (has_rpc has_publisher : Bool) (entry : LedgerEntry)
      (entries : List TransactionEntry) where
    pub Leaves-process_one_ledger :
        (ledger : Ledger) (s : State World)
        → services.ledger_from_rpc entry ≡ ok ledger
        → let c = (collected entries s.world).0 in
          Leaves
            (Holds (
              set_last_ingested_ledger entry.sequence (
                with_rows
                  (count_ledger services ledger entries c)
                  c
                  (token_events_of services entry.metadata_xdr)
                  (enriched_events entries s.world).0
                  s.db)))
            (Cursor s.db.last_ingested_ledger)
            (process_one_ledger services has_rpc has_publisher entry entries)
            s
    unfolding process_one_ledger ◌>>=◌
    Leaves-process_one_ledger ledger s e = record {
      at =
          rw e
            (Leaves-store_ledger has_rpc has_publisher entry _ _ _ _
              (record s { world = (enriched_events entries s.world).1 })).at;
    }
