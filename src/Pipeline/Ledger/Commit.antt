-- ===== src/Pipeline/Ledger/Commit.antt =====
-- When the ingestion of one ledger moves the cursor, and what it wrote by then.
use native.Mathlib.Nat.{le_refl}
use stellarview_tui.Prelude.{◌≤◌, ◌≡◌, ◌≢◌, sym, ap, subst, inl, inr, Bool, List}
use stellarview_tui.Store.Rows.{Ledger}
use stellarview_tui.Store.Db.{Db, insert_ledger, get_last_ingested_ledger, set_last_ingested_ledger}
use stellarview_tui.Store.Db.Growth.{
  Has, Extends, insert_ledger-Has, insert_ledger-Extends, set_last_ingested_ledger-max,
}
use stellarview_tui.Pipeline.Source.{LedgerEntry, TransactionEntry}
use stellarview_tui.Pipeline.Exec.{ok}
use stellarview_tui.Pipeline.Exec.Inversion.{
  bind-eq-ok, bind_of_failure, wrapping-eq-ok, Result-cases,
}
use stellarview_tui.Pipeline.Exec.Outcome.{Outcome-good, Outcome-bad}
use stellarview_tui.Pipeline.Services.{Services, State, pure_call}
use stellarview_tui.Pipeline.Ledger.{token_events_of, count_ledger, process_one_ledger}
use stellarview_tui.Pipeline.Ledger.Effect.{
  with_rows, cursor_with_rows, ledgers_with_rows, collected, enriched_events,
  Leaves-process_one_ledger,
}

same_cursor :
    (a b : Db)
    → a.last_ingested_ledger ≡ b.last_ingested_ledger
    → get_last_ingested_ledger a ≤ get_last_ingested_ledger b
unfolding get_last_ingested_ledger
same_cursor a b e = rw e (le_refl _)

-- The header of an entry, when it decodes, is that of the entry's own ledger.
abbrev pub NamesItself : Services → LedgerEntry → Type 0
NamesItself services entry =
    (l : Ledger) → services.ledger_from_rpc entry ≡ ok l → l.sequence ≡ entry.sequence

module _ (services : Services) where
  open services use {World}

  module _ (has_rpc has_publisher : Bool) (entry : LedgerEntry) (entries : List TransactionEntry)
      (s : State World) where
    -- The database after a successful ingestion.
    abbrev pub ingested : Ledger → Db
    ingested ledger =
        let c = (collected services entries s.world).0 in
        set_last_ingested_ledger entry.sequence (
          with_rows (count_ledger services ledger entries c) c
            (token_events_of services entry.metadata_xdr)
            (enriched_events services entries s.world).0 s.db)

    header_read :
        (process_one_ledger services has_rpc has_publisher entry entries s).0 ≡ ok tt
        → (ledger : Ledger) × (services.ledger_from_rpc entry ≡ ok ledger)
    unfolding process_one_ledger
    header_read h =
        let (ledger, first, _, _) = bind-eq-ok _ _ s tt h in
        (ledger, wrapping-eq-ok _ _ (pure_call (services.ledger_from_rpc entry)) s ledger first)

    unread_ledger :
        ((ledger : Ledger) → services.ledger_from_rpc entry ≢ ok ledger)
        → (process_one_ledger services has_rpc has_publisher entry entries s).1 ≡ s
    unfolding process_one_ledger
    unread_ledger h = bind_of_failure _ _ s (λ ledger e.
        h ledger (wrapping-eq-ok _ _ (pure_call (services.ledger_from_rpc entry)) s ledger e))

    -- A successful ingestion has written all rows of the ledger, with its counts, and then moved
    -- the cursor; nothing else in the database changed.
    pub process_one_ledger-eq-ok :
        (process_one_ledger services has_rpc has_publisher entry entries s).0 ≡ ok tt
        → (ledger : Ledger) × (services.ledger_from_rpc entry ≡ ok ledger)
          × ((process_one_ledger services has_rpc has_publisher entry entries s).1.db
              ≡ ingested ledger)
    process_one_ledger-eq-ok h =
        let (ledger, read) = header_read h in
        let leaves =
          Leaves-process_one_ledger services has_rpc has_publisher entry entries ledger s read in
        (ledger, read, Outcome-good _ _ _ tt leaves.at h)

    -- An ingestion that fails, at whatever statement, leaves the cursor where it was.
    pub process_one_ledger-cursor_of_failure :
        ((u : Unit {0})
          → (process_one_ledger services has_rpc has_publisher entry entries s).0 ≢ ok u)
        → (process_one_ledger services has_rpc has_publisher entry entries
            s).1.db.last_ingested_ledger
          ≡ s.db.last_ingested_ledger
    process_one_ledger-cursor_of_failure h = elim (Result-cases (services.ledger_from_rpc entry)) [
      | inl (ledger, read) ↦
          Outcome-bad _ _ _
            (Leaves-process_one_ledger services has_rpc has_publisher entry entries ledger s
              read).at
            h
      | inr unread ↦ ap (λ (t : State World). t.db.last_ingested_ledger) (unread_ledger unread)
    ]

    cursor_ingested :
        (ledger : Ledger)
        → (get_last_ingested_ledger s.db ≤ get_last_ingested_ledger (ingested ledger))
          × (entry.sequence ≤ get_last_ingested_ledger (ingested ledger))
    cursor_ingested ledger =
        let c = (collected services entries s.world).0 in
        let rows =
          with_rows (count_ledger services ledger entries c) c
            (token_events_of services entry.metadata_xdr)
            (enriched_events services entries s.world).0 s.db in
        let same : get_last_ingested_ledger rows ≡ get_last_ingested_ledger s.db =
          unfold get_last_ingested_ledger in rw cursor_with_rows in
        rw same at (set_last_ingested_ledger-max entry.sequence rows)

    -- Whether it succeeds or fails, the ingestion of a ledger never moves the cursor back.
    pub process_one_ledger-cursor_mono :
        get_last_ingested_ledger s.db
        ≤ get_last_ingested_ledger
            (process_one_ledger services has_rpc has_publisher entry entries s).1.db
    process_one_ledger-cursor_mono =
        elim (Result-cases (process_one_ledger services has_rpc has_publisher entry entries s).0) [
          | inl (u, done) ↦
              let (ledger, _, e) = process_one_ledger-eq-ok done in rw e (cursor_ingested ledger).0
          | inr failed ↦ same_cursor _ _ (sym (process_one_ledger-cursor_of_failure failed))
        ]

    -- After a success with an entry whose header decodes to the entry's own sequence, the ledger
    -- has its row, no ledger lost its row, and the cursor has not gone back and covers it.
    pub process_one_ledger-stores :
        NamesItself services entry
        → (process_one_ledger services has_rpc has_publisher entry entries s).0 ≡ ok tt
        → let after = (process_one_ledger services has_rpc has_publisher entry entries s).1.db in
          Has entry.sequence after
          × Extends s.db after
          × (get_last_ingested_ledger s.db ≤ get_last_ingested_ledger after)
          × (entry.sequence ≤ get_last_ingested_ledger after)
    unfolding set_last_ingested_ledger
    process_one_ledger-stores header h =
        let (ledger, read, e) = process_one_ledger-eq-ok h in
        let c = (collected services entries s.world).0 in
        let row = count_ledger services ledger entries c in
        let found : Has row.sequence (insert_ledger row s.db) = insert_ledger-Has row s.db in
        let seq : row.sequence ≡ entry.sequence = unfold count_ledger in header ledger read in
        rw e (
          rw ledgers_with_rows (subst (λ n. Has n (insert_ledger row s.db)) seq found),
          λ n k. rw ledgers_with_rows (insert_ledger-Extends row s.db n k),
          (cursor_ingested ledger).0,
          (cursor_ingested ledger).1,
        )
