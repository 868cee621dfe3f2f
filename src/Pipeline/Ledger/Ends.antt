-- ===== src/Pipeline/Ledger/Ends.antt =====
-- The ingestion of one ledger ends: it calls the decoders and the database, and has no loop but over
-- lists.
use stellarview_tui.Prelude.{◌≢◌, Bool, String, Option, none, some, List, [], ◌∷◌}
use stellarview_tui.Store.Rows.{Ledger, TokenEvent, ContractEvent}
use stellarview_tui.Store.Db.{Db}
use stellarview_tui.Pipeline.Source.{GetLedgersParams, LedgerEntry, TransactionEntry}
use stellarview_tui.Pipeline.Exec.{Failure, unfinished, Exec, wrapping, ◌>>◌}
use stellarview_tui.Pipeline.Exec.Inversion.{bind-finishes, wrapping-finishes}
use stellarview_tui.Pipeline.Services.{Services, State, pure_call}
use stellarview_tui.Pipeline.Ledger.{
  Collected, settle, statement, batch, spawn_contract_specs, publish, store_ledger,
  process_one_ledger,
}

-- The calls of the RPC node and of the decoders all return.
pub record CallsEnd (services : Services) : Type 0 where
  pub ledgers :
      (params : GetLedgersParams) (w : services.World)
      → (services.get_ledgers params w).0 ≢ unfinished
  pub header : (entry : LedgerEntry) → services.ledger_from_rpc entry ≢ unfinished
  pub metadata : (xdr : String) → services.decode_metadata_xdr xdr ≢ unfinished
  pub entries : (lcm : String) → services.transaction_entries_from_close_meta lcm ≢ unfinished

module _ (services : Services) where
  open services use {World}

  settle-finishes :
      (change : Db → Db) (problem : Option Failure) (s : State World)
      → (settle services change problem s).0 ≢ unfinished
  unfolding settle
  settle-finishes change none s = λ e. cc
  settle-finishes change (some e) s = λ k. cc

  statement-finishes :
      (change : Db → Db) (s : State World) → (statement services change s).0 ≢ unfinished
  unfolding statement
  statement-finishes change s =
      let (problem, w) = services.statement_error s.world in
      settle-finishes change problem (record s { world = w })

  batch-finishes :
      {A : Type 0} (insert : List A → Db → Db) (rows : List A) (s : State World)
      → (batch services insert rows s).0 ≢ unfinished
  unfolding batch
  batch-finishes insert [] s = λ e. cc
  batch-finishes insert (row ∷ rows) s = statement-finishes (insert (row ∷ rows)) s

  -- A step that ends, and then the rest.
  then-finishes :
      (format : String) (step rest : Exec (State World) Unit) (s : State World)
      → ((t : State World) → (step t).0 ≢ unfinished)
      → ((t : State World) → (rest t).0 ≢ unfinished)
      → ((wrapping format [] step >> rest) s).0 ≢ unfinished
  then-finishes format step rest s h k =
      bind-finishes (wrapping format [] step) _ s (wrapping-finishes format [] step s (h s))
        (λ u first. k _)

  store_ledger-finishes :
      (has_rpc has_publisher : Bool) (entry : LedgerEntry) (ledger : Ledger) (c : Collected)
      (token_events : List TokenEvent) (contract_events : List ContractEvent) (s : State World)
      → (store_ledger services has_rpc has_publisher entry ledger c token_events contract_events
          s).0
        ≢ unfinished
  unfolding store_ledger spawn_contract_specs publish
  store_ledger-finishes has_rpc has_publisher entry ledger c token_events contract_events s =
      then-finishes _ _ _ s (statement-finishes _) λ s1.
        then-finishes _ _ _ s1 (batch-finishes _ c.txs) λ s2.
          then-finishes _ _ _ s2 (batch-finishes _ c.ops) λ s3.
            bind-finishes (spawn_contract_specs services has_rpc entry ledger) _ s3 (λ e. cc)
              λ u _. then-finishes _ _ _ _ (batch-finishes _ token_events) λ s4.
                then-finishes _ _ _ s4 (batch-finishes _ contract_events)
                  λ s5. then-finishes _ _ _ s5 (statement-finishes _) (λ s6 e. cc)

  pub process_one_ledger-finishes :
      ((e : LedgerEntry) → services.ledger_from_rpc e ≢ unfinished)
      → (has_rpc has_publisher : Bool) (entry : LedgerEntry) (entries : List TransactionEntry)
        (s : State World)
      → (process_one_ledger services has_rpc has_publisher entry entries s).0 ≢ unfinished
  unfolding process_one_ledger
  process_one_ledger-finishes header has_rpc has_publisher entry entries s =
      let read : Exec (State World) Ledger = pure_call (services.ledger_from_rpc entry) in
      bind-finishes (wrapping "transform ledger: %w" [] read) _ s
        (wrapping-finishes _ _ read s (header entry))
        λ ledger _.
          bind-finishes _ _ _ (λ e. cc)
            λ c _.
              bind-finishes _ _ _ (λ e. cc)
                λ contract_events _.
                  store_ledger-finishes has_rpc has_publisher entry _ c _ contract_events _
