-- ===== src/Examples/Ingestion.antt =====
-- Ingestion from the nodes of Nodes, and the theorems of the pipelines at these runs.
use stellarview_tui.Prelude.{
  ℕ, zero, suc, ◌+◌, ◌-◌, ◌≤◌, ◌<◌, ◌≡◌, ◌≢◌, refl, sym, ap, ◌∙◌, true, false, Option, none, some,
  [], ◌∷◌, arith,
}
use stellarview_tui.Prelude.Int.{pos, negsuc}
use stellarview_tui.Store.Rows.{Ledger}
use stellarview_tui.Store.Db.{has_ledger, get_last_ingested_ledger}
use stellarview_tui.Store.Db.Growth.{Has, Extends}
use stellarview_tui.Pipeline.Source.{Pagination}
use stellarview_tui.Pipeline.Exec.{ok, unfinished, ◌>>=◌}
use stellarview_tui.Pipeline.Exec.Outcome.{ok-injective}
use stellarview_tui.Pipeline.Ledger.{
  process_one_ledger, store_ledger, statement, settle, batch, collect, collect_contract_events,
  token_events_of, spawn_contract_specs, publish,
}
use stellarview_tui.Pipeline.Ledger.Commit.{
  NamesItself, process_one_ledger-cursor_of_failure, process_one_ledger-cursor_mono,
  process_one_ledger-stores,
}
use stellarview_tui.Pipeline.Ledger.Again.{process_one_ledger-again}
use stellarview_tui.Pipeline.Ledger.Ends.{CallsEnd}
use stellarview_tui.Pipeline.Live.{
  one_batch, batch_limit, ingest_from, ingest_after, ingest_new_ledgers, query, fetch_ledgers,
  fetch_transactions, paginate, is_last_page, process_ledgers, process_fetched,
  process_ledger_batch, transactions_of,
}
use stellarview_tui.Pipeline.Live.Node.{AnswersInOrder, HeadersMatch, AnswersNothing}
use stellarview_tui.Pipeline.Live.Rounds.{Stored}
use stellarview_tui.Pipeline.Live.Complete.{ingest_new_ledgers-Stored}
use stellarview_tui.Pipeline.Live.Stall.{ingest_after-stuck}
use stellarview_tui.Pipeline.Live.Ends.{PagesEnd, ingest_new_ledgers-finishes}
use stellarview_tui.Pipeline.Backfill.{
  run_worker, worker_from, worker_batch, unless_cancelled, context_done, backfill_batch,
  process_close_metas,
}
use stellarview_tui.Pipeline.Backfill.Complete.{run_worker-Stored}
use stellarview_tui.Pipeline.Backfill.Ends.{run_worker-finishes}
use stellarview_tui.Pipeline.Backfill.Idle.{run_worker-idle}
use stellarview_tui.Examples.Nodes.{
  one_ledger, number_of-mark, mark, number_of, entry, row, transfer, latest, ledgers_result, steady,
  silent, garbled, at_five, start,
}

steady-AnswersInOrder : AnswersInOrder steady
steady-AnswersInOrder first (pos zero) w r asked h = cc
steady-AnswersInOrder first (pos (suc n)) w r asked h =
    let e : ledgers_result (entry first ∷ []) ≡ r = ok-injective h in
    rw (← e) (refl, omega arith, omega arith)
steady-AnswersInOrder first (negsuc n) w r asked h = cc

entry-NamesItself : (n : ℕ) → NamesItself steady (entry n)
entry-NamesItself n l h = ap (λ (r : Ledger). r.sequence) (sym (ok-injective h)) ∙ number_of-mark n

steady-HeadersMatch : HeadersMatch steady
steady-HeadersMatch first (pos zero) w r h = cc
steady-HeadersMatch first (pos (suc n)) w r h =
    let e : ledgers_result (entry first ∷ []) ≡ r = ok-injective h in
    rw (← e) (entry-NamesItself first, tt)
steady-HeadersMatch first (negsuc n) w r h = cc

silent-AnswersNothing : AnswersNothing silent
silent-AnswersNothing first limit w = (ledgers_result [], refl, refl)

-- A round from ledger 5 to ledger 7.
ingested_two : (ingest_new_ledgers steady 3 1 (pos 10) true start).0 ≡ ok 2
unfolding ingest_new_ledgers ingest_after ingest_from one_batch batch_limit query ◌>>=◌
    process_ledger_batch fetch_ledgers process_fetched fetch_transactions paginate is_last_page
    process_ledgers process_one_ledger transactions_of store_ledger statement settle batch collect
    collect_contract_events token_events_of spawn_contract_specs publish get_last_ingested_ledger
    mark number_of
ingested_two = refl

from_five :
    (0 < get_last_ingested_ledger start.db) × (get_last_ingested_ledger start.db < 4294967295)
unfolding get_last_ingested_ledger
from_five = omega arith

two_behind : 7 - get_last_ingested_ledger start.db < 3
unfolding get_last_ingested_ledger
two_behind = omega arith

ingest_new_ledgers-Stored_example :
    let after = (ingest_new_ledgers steady 3 1 (pos 10) true start).1.db in
    (2 ≡ 7 - get_last_ingested_ledger at_five)
    × Stored (get_last_ingested_ledger at_five + 1) 7 at_five after
ingest_new_ledgers-Stored_example =
    ingest_new_ledgers-Stored steady steady-AnswersInOrder steady-HeadersMatch 1 true 3 (pos 10)
      (latest 7) 2 start (omega arith) refl (omega arith) from_five.0 from_five.1 ingested_two

one_ledger-ends : (first : ℕ) (page : Option Pagination) → one_ledger first page ≢ unfinished
one_ledger-ends first none h = cc
one_ledger-ends first (some page) h = ground arith

steady-CallsEnd : CallsEnd steady
steady-CallsEnd = record {
  ledgers = λ params w. one_ledger-ends params.start_ledger params.pagination;
  header = λ e h. cc;
  metadata = λ xdr h. cc;
  entries = λ lcm h. cc;
}

steady-PagesEnd : PagesEnd steady 1
unfolding fetch_transactions paginate is_last_page ◌>>=◌
steady-PagesEnd first last t h = cc

ingest_new_ledgers-finishes_example :
    (ingest_new_ledgers steady 3 1 (pos 10) true start).0 ≢ unfinished
ingest_new_ledgers-finishes_example =
    ingest_new_ledgers-finishes steady steady-AnswersInOrder steady-CallsEnd 1 steady-PagesEnd true
      3 (pos 10) (latest 7) start (omega arith) refl (omega arith) from_five.0 two_behind

ingest_after-stuck_example : (ingest_after silent 100 1 (pos 10) true 7 5 start).0 ≡ unfinished
ingest_after-stuck_example =
    ingest_after-stuck silent 1 true silent-AnswersNothing 100 (pos 10) 7 5 start (omega arith)
      (omega arith) (omega arith)

stored_six : (process_one_ledger steady true true (entry 6) [] start).0 ≡ ok tt
unfolding process_one_ledger ◌>>=◌ store_ledger statement settle batch collect
    collect_contract_events token_events_of spawn_contract_specs publish mark number_of
stored_six = refl

process_one_ledger-stores_example :
    let after = (process_one_ledger steady true true (entry 6) [] start).1.db in
    Has 6 after
    × Extends at_five after
    × (get_last_ingested_ledger at_five ≤ get_last_ingested_ledger after)
    × (6 ≤ get_last_ingested_ledger after)
process_one_ledger-stores_example =
    process_one_ledger-stores steady true true (entry 6) [] start (entry-NamesItself 6) stored_six

process_one_ledger-cursor_mono_example :
    get_last_ingested_ledger at_five
    ≤ get_last_ingested_ledger (process_one_ledger garbled true true (entry 6) [] start).1.db
process_one_ledger-cursor_mono_example =
    process_one_ledger-cursor_mono garbled true true (entry 6) [] start

not_stored : (u : Unit {0}) → (process_one_ledger garbled true true (entry 6) [] start).0 ≢ ok u
unfolding process_one_ledger ◌>>=◌
not_stored u h = cc

process_one_ledger-cursor_of_failure_example :
    (process_one_ledger garbled true true (entry 6) [] start).1.db.last_ingested_ledger
    ≡ at_five.last_ingested_ledger
process_one_ledger-cursor_of_failure_example =
    process_one_ledger-cursor_of_failure garbled true true (entry 6) [] start not_stored

stored_five : (process_one_ledger steady true true (entry 5) [] start).0 ≡ ok tt
unfolding process_one_ledger ◌>>=◌ store_ledger statement settle batch collect
    collect_contract_events token_events_of spawn_contract_specs publish mark number_of
stored_five = refl

five_is_there : has_ledger 5 (pos 0) at_five.ledgers ≡ true
unfolding has_ledger
five_is_there = refl

-- Ledger 5 is there, and its token event is written again.
process_one_ledger-again_example :
    let after = (process_one_ledger steady true true (entry 5) [] start).1.db in
    (after.ledgers ≡ at_five.ledgers)
    × (after.operations ≡ [])
    × (after.token_events ≡ transfer ∷ [])
    × (after.contract_events ≡ [])
unfolding collect collect_contract_events token_events_of mark number_of
process_one_ledger-again_example =
    process_one_ledger-again steady true true (entry 5) [] start (row 5) refl five_is_there
      stored_five

worked : (run_worker steady 4 (pos 10) 6 8 start).0 ≡ ok 3
unfolding run_worker worker_from worker_batch unless_cancelled context_done backfill_batch
    fetch_ledgers batch_limit process_close_metas process_one_ledger ◌>>=◌ store_ledger statement
    settle batch collect collect_contract_events token_events_of spawn_contract_specs publish mark
    number_of
worked = refl

run_worker-Stored_example :
    (3 ≡ 8 + 1 - 6) × Stored 6 8 at_five (run_worker steady 4 (pos 10) 6 8 start).1.db
run_worker-Stored_example =
    run_worker-Stored steady steady-AnswersInOrder steady-HeadersMatch 4 (pos 10) 6 8 start
      (omega arith) (omega arith) (omega arith) 3 worked

free : (context_done silent start).0 ≡ ok false
unfolding context_done
free = refl

run_worker-idle_example :
    ((run_worker silent 4 (pos 10) 6 8 start).0 ≡ ok 0)
    × ((run_worker silent 4 (pos 10) 6 8 start).1.db ≡ at_five)
run_worker-idle_example =
    run_worker-idle silent 3 (pos 10) 6 8 start (ledgers_result []) free refl refl

run_worker-finishes_example : (run_worker steady 4 (pos 10) 6 8 start).0 ≢ unfinished
run_worker-finishes_example =
    run_worker-finishes steady steady-CallsEnd steady-AnswersInOrder 4 (pos 10) 6 8 start
      (omega arith) (omega arith) (omega arith)
