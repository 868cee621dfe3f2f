-- ===== src/Pipeline/Lake.antt =====
-- The worker that reads the data lake on S3: `runWorker` of
-- tui-indexer/internal/pipeline/s3backfill.go and `LedgerEntryFromCloseMeta` of
-- tui-indexer/internal/source/datalake.go.
pub mod Complete
pub mod Ends
use stellarview_tui.Prelude.{ℕ, zero, suc, ◌+◌, String, false, List, [], ◌∷◌, leb, if◌then◌else◌}
use stellarview_tui.Prelude.Words.{u32}
use stellarview_tui.Pipeline.Source.{LedgerEntry, TransactionEntry}
use stellarview_tui.Pipeline.Exec.{Result, Exec, pure, give_up, wrapping, ◌>>=◌, ◌>>◌}
use stellarview_tui.Pipeline.Services.{Services, State, outside, pure_call}
use stellarview_tui.Pipeline.Ledger.{process_one_ledger}

-- What the SDK reads in a ledger's metadata.
pub record Header : Type 0 where
  pub hash : String
  pub sequence : ℕ
  pub close_time : String

-- The data lake as the SDK reads it.
pub record DataLake (W : Type 0) : Type 0 where
  -- source.NewAnonymousPubnetDataStore and ledgerbackend.NewBufferedStorageBackend
  pub create_data_store : W → Result (Unit {0}) × W
  pub create_backend : W → Result (Unit {0}) × W
  pub prepare_range : ℕ → ℕ → W → Result (Unit {0}) × W
  pub get_ledger : ℕ → W → Result String × W
  pub header_of : String → Header
  pub marshal_header : String → Result String

module _ (services : Services) (lake : DataLake services.World) where
  open services use {World, transaction_entries_from_close_meta}

  -- `LedgerEntryFromCloseMeta`, which leaves `MetadataXDR` empty
  unfoldable pub ledger_entry_from_close_meta : String → Exec (State World) LedgerEntry
  ledger_entry_from_close_meta lcm = do
    header_xdr ← wrapping "marshal header entry: %w" [] (pure_call (lake.marshal_header lcm))
    let header = lake.header_of lcm
    pure (record {
      hash = header.hash;
      sequence = header.sequence;
      ledger_close_time = header.close_time;
      header_xdr = header_xdr;
      metadata_xdr = "";
    })

  -- The body of the loop.
  unfoldable pub lake_ledger : ℕ → Exec (State World) (Unit {0})
  lake_ledger seq = do
    lcm ← wrapping "get ledger %d: %w" (seq ∷ []) (outside (lake.get_ledger seq))
    entry ← wrapping "convert ledger %d: %w" (seq ∷ []) (ledger_entry_from_close_meta lcm)
    txs ←
        wrapping "convert transactions for ledger %d: %w" (seq ∷ [])
          (pure_call (transaction_entries_from_close_meta lcm))
    wrapping "process ledger %d: %w" (seq ∷ []) (process_one_ledger services false false entry txs)

  unfoldable pub lake_from : ℕ → ℕ → ℕ → ℕ → Exec (State World) ℕ
  lake_from zero end seq processed = give_up
  lake_from (suc fuel) end seq processed =
      let round =
        lake_ledger seq >>= λ (u : Unit {0}). lake_from fuel end (u32 (seq + 1)) (processed + 1) in
      if leb seq end then round else pure processed

  -- `S3BackfillPipeline.runWorker`; gives the ledgers it adds to the shared counter.
  unfoldable pub run_lake_worker : ℕ → ℕ → ℕ → Exec (State World) ℕ
  run_lake_worker fuel start end = do
    wrapping "create datastore: %w" [] (outside lake.create_data_store)
    wrapping "create buffered storage backend: %w" [] (outside lake.create_backend)
    wrapping "prepare range: %w" [] (outside (lake.prepare_range start end))
    lake_from fuel end start 0
