-- ===== src/Pipeline/Lake/Complete.antt =====
-- What a worker that reads the data lake has done when it ends without an error.
use mathlib.Core.List.{append-nil}
use stellarview_tui.Prelude.{
  ℕ, zero, suc, ◌+◌, ◌-◌, ◌≤◌, ◌<◌, ◌≡◌, refl, sym, ap, ◌∙◌, subst, String, false, inl, inr, List,
  [], ◌∷◌, leb, Bool-cases, arith,
}
use stellarview_tui.Prelude.Words.{u32}
use stellarview_tui.Store.Rows.{Ledger, TokenEvent, ContractEvent}
use stellarview_tui.Store.Db.{
  Db, insert_ledger, insert_transaction_batch, insert_operation_batch, insert_token_event_batch,
  insert_contract_event_batch, set_last_ingested_ledger,
}
use stellarview_tui.Pipeline.Source.{LedgerEntry, TransactionEntry}
use stellarview_tui.Pipeline.Exec.{Result, ok, Exec, wrapping}
use stellarview_tui.Pipeline.Exec.Outcome.{ok-injective}
use stellarview_tui.Pipeline.Exec.Inversion.{bind-eq-ok, wrapping-eq-ok}
use stellarview_tui.Pipeline.Services.{Services, State, outside, pure_call}
use stellarview_tui.Pipeline.Ledger.{Collected, process_one_ledger, token_events_of}
use stellarview_tui.Pipeline.Ledger.Effect.{with_rows, collected}
use stellarview_tui.Pipeline.Ledger.Commit.{NamesItself, process_one_ledger-eq-ok}
use stellarview_tui.Pipeline.Live.Rounds.{
  process_one_ledger-Stored, Stored, Stored-nothing, Stored-then,
}
use stellarview_tui.Pipeline.Lake.{
  DataLake, ledger_entry_from_close_meta, lake_ledger, lake_from, run_lake_worker,
}

-- The lake answers with the ledger that is asked for.
abbrev pub LakeInOrder : (services : Services) → DataLake services.World → Type 0
LakeInOrder services lake =
    (seq : ℕ) (w : services.World) (lcm : String)
    → (lake.get_ledger seq w).0 ≡ ok lcm
    → (lake.header_of lcm).sequence ≡ seq

-- The header that is marshalled for a ledger of the lake decodes to the ledger's own sequence.
abbrev pub LakeHeadersMatch : (services : Services) → DataLake services.World → Type 0
LakeHeadersMatch services lake =
    (lcm xdr : String) (entry : LedgerEntry) (l : Ledger)
    → lake.marshal_header lcm ≡ ok xdr
    → entry.header_xdr ≡ xdr
    → services.ledger_from_rpc entry ≡ ok l
    → l.sequence ≡ (lake.header_of lcm).sequence

-- `TokenEventsFromLedgerMeta` finds nothing in no metadata.
abbrev pub NoMetadataNoEvents : Services → Type 0
NoMetadataNoEvents services = services.token_events_from_ledger_meta "" ≡ ok []

tokens_insert_ledger : (l : Ledger) (db : Db) → (insert_ledger l db).token_events ≡ db.token_events
unfolding insert_ledger
tokens_insert_ledger l db = ground arith

tokens_with_rows :
    (l : Ledger) (c : Collected) (events : List ContractEvent) (db : Db)
    → (with_rows l c [] events db).token_events ≡ db.token_events
unfolding insert_transaction_batch insert_operation_batch insert_token_event_batch
    insert_contract_event_batch
tokens_with_rows l c events db =
    append-nil (insert_ledger l db).token_events ∙ tokens_insert_ledger l db

module _ (services : Services) (lake : DataLake services.World) (node : LakeInOrder services lake)
    (headers : LakeHeadersMatch services lake) (nothing : NoMetadataNoEvents services) where
  open services use {World}

  no_tokens : token_events_of services "" ≡ []
  unfolding token_events_of
  no_tokens = ap (λ (r : Result (List TokenEvent)). elim r [ ok events ↦ events | _ ↦ [] ]) nothing

  -- An ingestion of a ledger without metadata that works appends no token events.
  process_one_ledger-token_events :
      (entry : LedgerEntry) (txs : List TransactionEntry) (s : State World)
      → entry.metadata_xdr ≡ ""
      → (process_one_ledger services false false entry txs s).0 ≡ ok tt
      → (process_one_ledger services false false entry txs s).1.db.token_events ≡ s.db.token_events
  unfolding set_last_ingested_ledger
  process_one_ledger-token_events entry txs s empty h =
      let (ledger, read, after) = process_one_ledger-eq-ok services false false entry txs s h in
      let tokens : token_events_of services entry.metadata_xdr ≡ [] =
        ap (λ m. token_events_of services m) empty ∙ no_tokens in
      ap (λ db. db.token_events) after
      ∙ rw tokens (tokens_with_rows _ (collected services txs s.world).0 _ s.db)

  -- An entry from the lake has the sequence of its ledger, which is that of its header, and no
  -- metadata.
  ledger_entry_from_close_meta-eq-ok :
      (lcm : String) (s : State World) (entry : LedgerEntry)
      → (ledger_entry_from_close_meta services lake lcm s).0 ≡ ok entry
      → (entry.sequence ≡ (lake.header_of lcm).sequence)
        × NamesItself services entry
        × (entry.metadata_xdr ≡ "")
        × ((ledger_entry_from_close_meta services lake lcm s).1 ≡ s)
  unfolding ledger_entry_from_close_meta
  ledger_entry_from_close_meta-eq-ok lcm s entry h =
      let (xdr, marshalled, after, h1) = bind-eq-ok _ _ s entry h in
      let same = ok-injective h1 in
      let call = pure_call (lake.marshal_header lcm) in
      let written : lake.marshal_header lcm ≡ ok xdr = wrapping-eq-ok _ _ call s xdr marshalled in
      let numbered = ap (λ e. e.sequence) (sym same) in
      let header = ap (λ e. e.header_xdr) (sym same) in
      (
        numbered,
        λ l read. headers lcm xdr entry l written header read ∙ sym numbered,
        ap (λ e. e.metadata_xdr) (sym same),
        ap (λ r. r.1) after,
      )

  lake_ledger-Stored :
      (seq : ℕ) (s : State World)
      → (lake_ledger services lake seq s).0 ≡ ok tt
      → Stored seq seq s.db (lake_ledger services lake seq s).1.db
        × ((lake_ledger services lake seq s).1.db.token_events ≡ s.db.token_events)
  unfolding lake_ledger
  lake_ledger-Stored seq s h =
      let fetch = outside (lake.get_ledger seq) in
      let (lcm, fetched, after1, h1) =
        bind-eq-ok (wrapping "get ledger %d: %w" (seq ∷ []) fetch) _ s tt h in
      let t : State World = record s { world = (lake.get_ledger seq s.world).1 } in
      let convert = ledger_entry_from_close_meta services lake lcm in
      let (entry, converted, after2, h2) =
        bind-eq-ok (wrapping "convert ledger %d: %w" (seq ∷ []) convert) _ t tt h1 in
      let (numbered, named, empty, same) =
        ledger_entry_from_close_meta-eq-ok lcm t entry
          (wrapping-eq-ok _ _ convert t entry converted) in
      let extract : Exec (State World) (List TransactionEntry) =
        pure_call (services.transaction_entries_from_close_meta lcm) in
      let (txs, extracted, after3, h3) =
        bind-eq-ok (wrapping "convert transactions for ledger %d: %w" (seq ∷ []) extract) _
          (convert t).1 tt h2 in
      let one = process_one_ledger services false false entry txs in
      let in_order = node seq s.world lcm (wrapping-eq-ok _ _ fetch s lcm fetched) in
      let worked = wrapping-eq-ok _ _ one (convert t).1 tt h3 in
      let db = ap (λ u. u.db) same in
      let stored =
        process_one_ledger-Stored services false false entry txs seq (convert t).1 named
          (numbered ∙ in_order) worked in
      let tokens = process_one_ledger-token_events entry txs (convert t).1 empty worked in
      rw (after1, after2, after3)
        (
          subst (λ d. Stored seq seq d (one (convert t).1).1.db) db stored,
          tokens ∙ ap (λ d. d.token_events) db,
        )

  lake_from-Stored :
      (end : ℕ)
      → end < 4294967295
      → (fuel seq processed n : ℕ) (s : State World) → seq ≤ end + 1
      → (lake_from services lake fuel end seq processed s).0 ≡ ok n
      → (n ≡ processed + (end + 1 - seq))
        × Stored seq end s.db (lake_from services lake fuel end seq processed s).1.db
        × ((lake_from services lake fuel end seq processed s).1.db.token_events ≡ s.db.token_events)
  unfolding lake_from
  lake_from-Stored end small zero seq processed n s c h = cc
  lake_from-Stored end small (suc fuel) seq processed n s c h = elim (Bool-cases (leb seq end)) [
    | inr done ↦
        let e : ok processed ≡ ok n = rw done at h in
        rw done (ground arith, Stored-nothing seq end s.db (ground arith), refl)
    | inl more ↦
        let one = lake_ledger services lake seq in
        let (u, first, after, later) = bind-eq-ok one _ s n (rw more at h) in
        let (stored, tokens) = lake_ledger-Stored seq s first in
        let next : u32 (seq + 1) ≡ seq + 1 = ground arith in
        let (count, rest, kept) =
          lake_from-Stored end small fuel (u32 (seq + 1)) (processed + 1) n (one s).1 (ground arith)
            later in
        rw (more, after)
          (
            ground arith,
            Stored-then seq seq (u32 (seq + 1)) end s.db (one s).1.db _ (omega arith) next stored
                rest,
            kept ∙ tokens,
          )
  ]

  -- Against a lake that answers with the ledgers that are asked for, whose headers decode to the
  -- sequences they were marshalled with, and when no metadata hold no token events: when a worker of the S3 backfill ends without an error on a range (of uint32, below the last one)
  -- that is not reversed, it has counted and stored every ledger of its range and lost no stored
  -- ledger. It has appended no token events, since its ledgers come without their metadata.
  pub run_lake_worker-Stored :
      (fuel start end n : ℕ) (s : State World)
      → end < 4294967295
      → start ≤ end + 1
      → (run_lake_worker services lake fuel start end s).0 ≡ ok n
      → (n ≡ end + 1 - start)
        × Stored start end s.db (run_lake_worker services lake fuel start end s).1.db
        × ((run_lake_worker services lake fuel start end s).1.db.token_events ≡ s.db.token_events)
  unfolding run_lake_worker
  run_lake_worker-Stored fuel start end n s small ordered h =
      let (u1, made, after1, h1) =
        bind-eq-ok (wrapping "create datastore: %w" [] (outside lake.create_data_store)) _ s n h in
      let (u2, built, after2, h2) =
        bind-eq-ok (wrapping "create buffered storage backend: %w" [] (outside lake.create_backend))
          _ _ n h1 in
      let (u3, ready, after3, h3) =
        bind-eq-ok (wrapping "prepare range: %w" [] (outside (lake.prepare_range start end))) _ _ n
          h2 in
      let (count, stored, kept) = lake_from-Stored end small fuel start 0 n _ ordered h3 in
      rw (after1, after2, after3) (omega arith, stored, kept)
