-- ===== src/Pipeline/Lake/Ends.antt =====
-- A worker that reads the data lake ends: `runWorker` of
-- tui-indexer/internal/pipeline/s3backfill.go.
use stellarview_tui.Prelude.{
  ℕ, zero, suc, ◌+◌, ◌-◌, ◌<◌, ◌≡◌, ◌≢◌, String, false, inl, inr, List, [], ◌∷◌, leb, Bool-cases,
  arith,
}
use stellarview_tui.Prelude.Words.{u32}
use stellarview_tui.Pipeline.Source.{LedgerEntry, TransactionEntry}
use stellarview_tui.Pipeline.Exec.{Result, unfinished, Exec, wrapping, ◌>>◌}
use stellarview_tui.Pipeline.Exec.Inversion.{bind-finishes, wrapping-finishes}
use stellarview_tui.Pipeline.Services.{Services, State, outside, pure_call}
use stellarview_tui.Pipeline.Ledger.{process_one_ledger}
use stellarview_tui.Pipeline.Ledger.Ends.{process_one_ledger-finishes}
use stellarview_tui.Pipeline.Lake.{
  DataLake, ledger_entry_from_close_meta, lake_ledger, lake_from, run_lake_worker,
}

-- The calls of the data lake and of the decoders all return.
pub record LakeCallsEnd (services : Services) (lake : DataLake services.World) : Type 0 where
  pub data_store : (w : services.World) → (lake.create_data_store w).0 ≢ unfinished
  pub backend : (w : services.World) → (lake.create_backend w).0 ≢ unfinished
  pub range : (a b : ℕ) (w : services.World) → (lake.prepare_range a b w).0 ≢ unfinished
  pub ledger : (seq : ℕ) (w : services.World) → (lake.get_ledger seq w).0 ≢ unfinished
  pub marshalled : (lcm : String) → lake.marshal_header lcm ≢ unfinished
  pub entries : (lcm : String) → services.transaction_entries_from_close_meta lcm ≢ unfinished
  pub header : (entry : LedgerEntry) → services.ledger_from_rpc entry ≢ unfinished

module _ (services : Services) (lake : DataLake services.World)
    (calls : LakeCallsEnd services lake) where
  open services use {World}

  ledger_entry_from_close_meta-finishes :
      (lcm : String) (s : State World)
      → (ledger_entry_from_close_meta services lake lcm s).0 ≢ unfinished
  unfolding ledger_entry_from_close_meta
  ledger_entry_from_close_meta-finishes lcm s =
      let call = pure_call (lake.marshal_header lcm) in
      bind-finishes _ _ s (wrapping-finishes _ _ call s (calls.marshalled lcm)) (λ xdr _ e. cc)

  lake_ledger-finishes :
      (seq : ℕ) (s : State World) → (lake_ledger services lake seq s).0 ≢ unfinished
  unfolding lake_ledger
  lake_ledger-finishes seq s =
      let fetch = outside (lake.get_ledger seq) in
      bind-finishes _ _ s (wrapping-finishes _ _ fetch s (calls.ledger seq s.world)) λ lcm _.
        let t : State World = record s { world = (lake.get_ledger seq s.world).1 } in
        let convert = ledger_entry_from_close_meta services lake lcm in
        let u = (convert t).1 in
        let extract : Exec (State World) (List TransactionEntry) =
          pure_call (services.transaction_entries_from_close_meta lcm) in
        bind-finishes (wrapping "convert ledger %d: %w" (seq ∷ []) convert) _ t
          (wrapping-finishes _ _ convert t (ledger_entry_from_close_meta-finishes lcm t))
          λ entry _.
            bind-finishes _ _ u (wrapping-finishes _ _ extract u (calls.entries lcm)) λ txs _.
              let one = process_one_ledger services false false entry txs in
              wrapping-finishes _ _ one u
                (process_one_ledger-finishes services calls.header false false entry txs u)

  module _ (end : ℕ) (small : end < 4294967295) where
    lake_from-finishes :
        (fuel seq processed : ℕ) (s : State World)
        → end + 1 - seq < fuel
        → (lake_from services lake fuel end seq processed s).0 ≢ unfinished
    unfolding lake_from
    lake_from-finishes zero seq processed s h = absurd (omega arith)
    lake_from-finishes (suc fuel) seq processed s h = elim (Bool-cases (leb seq end)) [
      | inr done ↦ rw done (λ e. cc)
      | inl more ↦
          let next : u32 (seq + 1) ≡ seq + 1 = ground arith in
          let fewer : end + 1 - u32 (seq + 1) < fuel = rw next (ground arith) in
          rw more (
            bind-finishes (lake_ledger services lake seq) _ s (lake_ledger-finishes seq s)
              (λ u first. lake_from-finishes fuel (u32 (seq + 1)) (processed + 1) _ fewer))
    ]

    opening-finishes :
        (format : String) (call : World → Result (Unit {0}) × World) (next : Exec (State World) ℕ)
        (s : State World)
        → ((w : World) → (call w).0 ≢ unfinished)
        → ((t : State World) → (next t).0 ≢ unfinished)
        → ((wrapping format [] (outside call) >> next) s).0 ≢ unfinished
    opening-finishes format call next s h k =
        bind-finishes (wrapping format [] (outside call)) _ s
          (wrapping-finishes format [] (outside call) s (h s.world)) (λ u first. k _)

    -- When every call of the data lake and of the decoders returns, fuel above the number of ledgers
    -- of the range (of uint32, below the last one) is enough for a worker of the S3 backfill to end.
    pub run_lake_worker-finishes :
        (fuel start : ℕ) (s : State World)
        → end + 1 - start < fuel
        → (run_lake_worker services lake fuel start end s).0 ≢ unfinished
    unfolding run_lake_worker
    run_lake_worker-finishes fuel start s enough =
        opening-finishes _ lake.create_data_store _ s calls.data_store λ t.
          opening-finishes _ lake.create_backend _ t calls.backend λ t'.
            opening-finishes _ (lake.prepare_range start end) _ t' (calls.range start end)
              λ t''. lake_from-finishes fuel start 0 t'' enough
