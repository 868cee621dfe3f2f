-- ===== src/Pipeline/Live/Node.antt =====
-- Live ingestion against a node that answers in order, and against one that answers with nothing.
use stellarview_tui.Prelude.{
  ℕ, ◌+◌, ◌≤◌, ◌≡◌, ◌∙◌, Bool, List, [], ◌∷◌, map, length, count_from, All, arith,
}
use stellarview_tui.Prelude.Int.{ℤ, pos, ◌≤ℤ◌}
use stellarview_tui.Pipeline.Source.{LedgerEntry, TransactionEntry, GetLedgersResult}
use stellarview_tui.Pipeline.Exec.{ok}
use stellarview_tui.Pipeline.Exec.Inversion.{bind-eq-ok, bind_of_ok, wrapping-eq-ok}
use stellarview_tui.Pipeline.Services.{Services, State, outside}
use stellarview_tui.Pipeline.Ledger.Commit.{NamesItself}
use stellarview_tui.Pipeline.Live.{
  ledgers_request, fetch_ledgers, process_ledgers, process_fetched, process_ledger_batch,
}
use stellarview_tui.Pipeline.Live.Progress.{Progresses}

module _ (services : Services) where
  open services use {World, get_ledgers}

  -- Asked for some ledgers, getLedgers answers with consecutive ones from the one that was asked
  -- for, with at least one and no more than the limit, or it fails. (A limit of zero is left out of
  -- the request, and asks for a page of the node's own size.)
  abbrev pub AnswersInOrder : Type 0
  AnswersInOrder =
      (start : ℕ) (limit : ℤ) (w : World) (r : GetLedgersResult)
      → pos 1 ≤ℤ limit
      → (get_ledgers (ledgers_request start limit) w).0 ≡ ok r
      → (map (λ (l : LedgerEntry). l.sequence) r.ledgers ≡ count_from start (length r.ledgers))
        × (1 ≤ length r.ledgers)
        × (pos (length r.ledgers) ≤ℤ limit)

  -- The headers that getLedgers answers with name their ledgers.
  abbrev pub HeadersMatch : Type 0
  HeadersMatch =
      (start : ℕ) (limit : ℤ) (w : World) (r : GetLedgersResult)
      → (get_ledgers (ledgers_request start limit) w).0 ≡ ok r
      → All (NamesItself services) r.ledgers

  -- getLedgers answers, and holds no ledgers.
  abbrev pub AnswersNothing : Type 0
  AnswersNothing =
      (start : ℕ) (limit : ℤ) (w : World)
      → (r : GetLedgersResult) × ((get_ledgers (ledgers_request start limit) w).0 ≡ ok r)
        × (r.ledgers ≡ [])

  pub fetched_answer :
      (start : ℕ) (limit : ℤ) (s : State World) (r : GetLedgersResult)
      → (fetch_ledgers services start limit s).0 ≡ ok r
      → (get_ledgers (ledgers_request start limit) s.world).0 ≡ ok r
  unfolding fetch_ledgers
  fetched_answer start limit s r h =
      wrapping-eq-ok _ _ (outside (get_ledgers (ledgers_request start limit))) s r h

  module _ (page_fuel : ℕ) (has_publisher : Bool) where
    process_ledgers-eq-ok :
        (entries : List LedgerEntry) (all : List TransactionEntry) (processed n : ℕ)
        (s : State World)
        → (process_ledgers services has_publisher entries all processed s).0 ≡ ok n
        → n ≡ processed + length entries
    unfolding process_ledgers
    process_ledgers-eq-ok [] all processed n s h = ground arith
    process_ledgers-eq-ok (entry ∷ entries) all processed n s h =
        let (_, _, _, rest) = bind-eq-ok _ _ s n h in
        omega (arith, process_ledgers-eq-ok entries all (processed + 1) n _ rest)

    pub process_fetched-eq-ok :
        (start n : ℕ) (entries : List LedgerEntry) (s : State World)
        → (process_fetched services page_fuel has_publisher start entries s).0 ≡ ok n
        → n ≡ length entries
    unfolding process_fetched
    process_fetched-eq-ok start n [] s h = ground arith
    process_fetched-eq-ok start n (entry ∷ entries) s h =
        let (all, _, _, rest) = bind-eq-ok _ _ s n h in
        process_ledgers-eq-ok (entry ∷ entries) all 0 n _ rest ∙ omega arith

    pub process_ledger_batch-Progresses :
        AnswersInOrder → Progresses (process_ledger_batch services page_fuel has_publisher)
    unfolding process_ledger_batch
    process_ledger_batch-Progresses node start limit s n asked h =
        let (fetched, first, _, rest) = bind-eq-ok (fetch_ledgers services start limit) _ s n h in
        let (_, positive, bounded) =
          node start limit s.world fetched asked (fetched_answer start limit s fetched first) in
        rw (process_fetched-eq-ok start n fetched.ledgers _ rest) (positive, bounded)

    pub process_ledger_batch-idle :
        AnswersNothing
        → (start : ℕ) (limit : ℤ) (s : State World)
        → (process_ledger_batch services page_fuel has_publisher start limit s).0 ≡ ok 0
    unfolding process_ledger_batch process_fetched
    process_ledger_batch-idle node start limit s =
        let (r, answer, empty) = node start limit s.world in
        let first : (fetch_ledgers services start limit s).0 ≡ ok r =
          unfold fetch_ledgers in rw answer in
        rw (bind_of_ok (fetch_ledgers services start limit) _ s r first, empty)
