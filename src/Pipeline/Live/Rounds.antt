-- ===== src/Pipeline/Live/Rounds.antt =====
-- What a stretch of ingestion stores, and that the loop of `ingestNewLedgers` stores what its
-- batches store.
use native.Mathlib.Nat.{le_refl, le_trans}
use stellarview_tui.Prelude.{
  ℕ, zero, suc, ◌+◌, ◌-◌, ◌≤◌, ◌<◌, ◌≡◌, subst, Bool, inl, inr, List, leb, leb→le, Bool-cases,
  arith,
}
use stellarview_tui.Prelude.Int.{ℤ, pos, ◌≤ℤ◌}
use stellarview_tui.Prelude.Words.{u32}
use stellarview_tui.Store.Db.{Db, get_last_ingested_ledger}
use stellarview_tui.Store.Db.Growth.{Has, Extends}
use stellarview_tui.Pipeline.Source.{LedgerEntry, TransactionEntry}
use stellarview_tui.Pipeline.Exec.{ok, Exec}
use stellarview_tui.Pipeline.Exec.Inversion.{bind-eq-ok, wrapping-eq-ok}
use stellarview_tui.Pipeline.Services.{Services, State}
use stellarview_tui.Pipeline.Ledger.{process_one_ledger}
use stellarview_tui.Pipeline.Ledger.Commit.{NamesItself, process_one_ledger-stores}
use stellarview_tui.Pipeline.Live.{batch_limit, one_batch, ingest_from}
use stellarview_tui.Pipeline.Live.Progress.{Progresses, batch_limit-positive, one_batch-advances}

-- From `before` to `after` the ledgers `first` to `last` were stored: each has its row, no ledger
-- lost its row, and the cursor did not go back and covers them.
pub record Stored (first last : ℕ) (before after : Db) : Type 0 where
  pub has : (n : ℕ) → first ≤ n → n ≤ last → Has n after
  pub kept : Extends before after
  pub forward : get_last_ingested_ledger before ≤ get_last_ingested_ledger after
  pub covered : first ≤ last → last ≤ get_last_ingested_ledger after

pub Stored-nothing : (first last : ℕ) (db : Db) → last < first → Stored first last db db
Stored-nothing first last db h = record {
  has = λ n a b. absurd (omega arith);
  kept = λ n k. k;
  forward = le_refl _;
  covered = λ k. absurd (omega arith);
}

pub Stored-then :
    (first middle next last : ℕ) (a b c : Db)
    → first ≤ middle
    → next ≡ middle + 1
    → Stored first middle a b
    → Stored next last b c
    → Stored first last a c
Stored-then first middle next last a b c h e x y = record {
  has = λ n p q. elim (Bool-cases (leb n middle)) [
    | inl early ↦ y.kept n (x.has n p (ground arith))
    | inr late ↦ y.has n (ground arith) q
  ];
  kept = λ n k. y.kept n (x.kept n k);
  forward = le_trans x.forward y.forward;
  covered = λ k. elim (Bool-cases (leb last middle)) [
    | inl early ↦ omega (arith, x.covered h, y.forward, leb→le last middle early)
    | inr late ↦ y.covered (ground arith)
  ];
}

-- The loop stores what its batches store.
module _ (services : Services) (process_batch : ℕ → ℤ → Exec (State services.World) ℕ)
    (progress : Progresses process_batch)
    (stores : (cursor : ℕ) (limit : ℤ) (s : State services.World) (n : ℕ)
      → pos 1 ≤ℤ limit
      → (process_batch cursor limit s).0 ≡ ok n
      → Stored cursor (cursor + n - 1) s.db (process_batch cursor limit s).1.db)
    (batch_size : ℤ) (latest : ℕ) (small : latest < 4294967295)
    (positive : pos 1 ≤ℤ batch_size) where
  pub ingest_from-Stored :
      (fuel cursor total n : ℕ) (s : State services.World)
      → cursor ≤ latest + 1
      → (ingest_from process_batch fuel batch_size latest cursor total s).0 ≡ ok n
      → Stored cursor latest s.db
          (ingest_from process_batch fuel batch_size latest cursor total s).1.db
  unfolding ingest_from one_batch
  ingest_from-Stored zero cursor total n s c h = cc
  ingest_from-Stored (suc fuel) cursor total n s c h = elim (Bool-cases (leb cursor latest)) [
    | inl more ↦
        let batch = one_batch process_batch batch_size latest cursor in
        let (count, first, after, later) = bind-eq-ok batch _ s n (rw more at h) in
        let here : cursor ≤ latest = ground arith in
        let (same, above, below) =
          one_batch-advances process_batch progress batch_size latest small positive cursor count s
            here first in
        let asked = batch_limit-positive batch_size latest cursor positive here small in
        let inner =
          wrapping-eq-ok _ _ (process_batch cursor (batch_limit batch_size latest cursor)) s count
            first in
        rw (more, after)
          (Stored-then cursor (cursor + count - 1) (u32 (cursor + count)) latest s.db (batch s).1.db
            _ (omega arith) (omega arith)
            (stores cursor (batch_limit batch_size latest cursor) s count asked inner)
            (ingest_from-Stored fuel (u32 (cursor + count)) (total + count) n (batch s).1
              (omega arith) later))
    | inr done ↦ rw done (Stored-nothing cursor latest s.db (ground arith))
  ]

module _ (services : Services) (has_rpc has_publisher : Bool) where
  open services use {World}

  -- What a successful ingestion of one ledger stores.
  pub process_one_ledger-Stored :
      (entry : LedgerEntry) (txs : List TransactionEntry) (start : ℕ) (s : State World)
      → NamesItself services entry
      → entry.sequence ≡ start
      → (process_one_ledger services has_rpc has_publisher entry txs s).0 ≡ ok tt
      → Stored start start s.db (process_one_ledger services has_rpc has_publisher entry txs s).1.db
  process_one_ledger-Stored entry txs start s header e h =
      let (found, kept, forward, covered) =
        process_one_ledger-stores services has_rpc has_publisher entry txs s header h in
      let after = (process_one_ledger services has_rpc has_publisher entry txs s).1.db in
      record {
        has = λ n a b.
            let same : entry.sequence ≡ n = omega arith in subst (λ k. Has k after) same found;
        kept = kept;
        forward = forward;
        covered = λ _. subst (λ k. k ≤ get_last_ingested_ledger after) e covered;
      }
