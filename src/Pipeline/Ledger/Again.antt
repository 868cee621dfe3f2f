-- ===== src/Pipeline/Ledger/Again.antt =====
-- A ledger that is ingested once more, after a restart or from an overlapping backfill.
use stellarview_tui.Prelude.{◌≡◌, ap, Bool, true, List, ◌++◌, arith}
use stellarview_tui.Store.Rows.{Ledger}
use stellarview_tui.Store.Db.{
  Db, has_ledger, insert_ledger, insert_transaction_batch, insert_operation_batch,
  insert_token_event_batch, insert_contract_event_batch, set_last_ingested_ledger,
}
use stellarview_tui.Pipeline.Source.{LedgerEntry, TransactionEntry}
use stellarview_tui.Pipeline.Exec.{ok}
use stellarview_tui.Pipeline.Services.{Services, State}
use stellarview_tui.Pipeline.Ledger.{token_events_of, count_ledger, process_one_ledger}
use stellarview_tui.Pipeline.Ledger.Effect.{collected, enriched_events}
use stellarview_tui.Pipeline.Ledger.Commit.{process_one_ledger-eq-ok}

insert_ledger-operations : (l : Ledger) (db : Db) → (insert_ledger l db).operations ≡ db.operations
unfolding insert_ledger
insert_ledger-operations l db = ground arith

insert_ledger-token_events :
    (l : Ledger) (db : Db) → (insert_ledger l db).token_events ≡ db.token_events
unfolding insert_ledger
insert_ledger-token_events l db = ground arith

insert_ledger-contract_events :
    (l : Ledger) (db : Db) → (insert_ledger l db).contract_events ≡ db.contract_events
unfolding insert_ledger
insert_ledger-contract_events l db = ground arith

module _ (services : Services) (has_rpc has_publisher : Bool) (entry : LedgerEntry)
    (entries : List TransactionEntry) (s : State services.World) where
  -- A successful ingestion of a ledger whose row is already stored keeps the table of ledgers as
  -- it was, and appends the operations, the token events and the contract events of the ledger
  -- to their tables whether or not they are there already.
  pub process_one_ledger-again :
      (ledger : Ledger)
      → services.ledger_from_rpc entry ≡ ok ledger
      → has_ledger ledger.sequence ledger.closed_at s.db.ledgers ≡ true
      → (process_one_ledger services has_rpc has_publisher entry entries s).0 ≡ ok tt
      → let after = (process_one_ledger services has_rpc has_publisher entry entries s).1.db in
        let c = (collected services entries s.world).0 in
        (after.ledgers ≡ s.db.ledgers)
        × (after.operations ≡ s.db.operations ++ c.ops)
        × (after.token_events ≡ s.db.token_events ++ token_events_of services entry.metadata_xdr)
        × (after.contract_events
            ≡ s.db.contract_events ++ (enriched_events services entries s.world).0)
  unfolding insert_transaction_batch insert_operation_batch insert_token_event_batch
      insert_contract_event_batch set_last_ingested_ledger
  process_one_ledger-again ledger read old h =
      let (row, read', e) =
        process_one_ledger-eq-ok services has_rpc has_publisher entry entries s h in
      let c = (collected services entries s.world).0 in
      let counted = count_ledger services row entries c in
      let same : row ≡ ledger = cc in
      let kept : insert_ledger counted s.db ≡ s.db =
        unfold insert_ledger in unfold count_ledger in rw (same, old) in
      rw e (
        ap (λ (d : Db). d.ledgers) kept,
        ap (λ ops. ops ++ c.ops) (insert_ledger-operations counted s.db),
        ap (λ l. l ++ token_events_of services entry.metadata_xdr)
            (insert_ledger-token_events counted s.db),
        ap (λ l. l ++ (enriched_events services entries s.world).0)
            (insert_ledger-contract_events counted s.db),
      )
