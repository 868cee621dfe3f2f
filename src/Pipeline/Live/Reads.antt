-- ===== src/Pipeline/Live/Reads.antt =====
-- Reading pages of transactions leaves the database alone.
use stellarview_tui.Prelude.{
  ℕ, zero, suc, ◌≡◌, refl, ap, Option, none, some, inl, inr, List, ◌++◌, Bool-cases,
}
use stellarview_tui.Store.Db.{Db}
use stellarview_tui.Pipeline.Source.{TransactionEntry, GetTransactionsResult}
use stellarview_tui.Pipeline.Exec.{Failure, ok}
use stellarview_tui.Pipeline.Exec.Inversion.{bind-keeps}
use stellarview_tui.Pipeline.Services.{Services, State}
use stellarview_tui.Pipeline.Live.{is_last_page, query_of, query, paginate, fetch_transactions}

module _ (services : Services) where
  open services use {World}

  db-paginate :
      (fuel end_ledger : ℕ) (page : GetTransactionsResult) (all : List TransactionEntry)
      (s : State World) (db : Db)
      → s.db ≡ db
      → (paginate services fuel end_ledger page all s).1.db ≡ db
  unfolding paginate
  db-paginate zero end_ledger page all s db e = e
  db-paginate (suc fuel) end_ledger page all s db e =
      elim (Bool-cases (is_last_page end_ledger page)) [
        | inl last ↦ rw last e
        | inr more ↦ rw more (
            bind-keeps (λ (t : State World). t.db ≡ db) _ _ s e
              λ next t k. db-paginate fuel end_ledger next (all ++ next.transactions) t db k)
      ]

  pub db-fetch_transactions :
      (page_fuel start end_ledger : ℕ) (s : State World)
      → (fetch_transactions services page_fuel start end_ledger s).1.db ≡ s.db
  unfolding fetch_transactions
  db-fetch_transactions page_fuel start end_ledger s =
      bind-keeps (λ (t : State World). t.db ≡ s.db) _ _ s refl
        λ page t k. db-paginate page_fuel end_ledger page page.transactions t s.db k

  query_of-eq-ok :
      {A : Type 0} (f : Db → A) (problem : Option Failure) (s : State World) (a : A)
      → (query_of services f problem s).0 ≡ ok a
      → (a ≡ f s.db) × ((query_of services f problem s).1 ≡ s)
  unfolding query_of
  query_of-eq-ok f none s a h = (cc, refl)
  query_of-eq-ok f (some e) s a h = cc

  -- A query that succeeds gives what the database holds, and leaves it alone.
  pub query-eq-ok :
      {A : Type 0} (f : Db → A) (s : State World) (a : A)
      → (query services f s).0 ≡ ok a
      → (a ≡ f s.db) × ((query services f s).1.db ≡ s.db)
  unfolding query
  query-eq-ok f s a h =
      let (problem, w) = services.statement_error s.world in
      let (value, same) = query_of-eq-ok f problem (record s { world = w }) a h in
      (value, ap (λ (t : State World). t.db) same)
