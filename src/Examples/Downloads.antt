-- ===== src/Examples/Downloads.antt =====
-- The worker of the S3 backfill against a lake that has every ledger.
use stellarview_tui.Prelude.{◌+◌, ◌-◌, ◌≡◌, ◌≢◌, refl, sym, ap, ◌∙◌, [], arith}
use stellarview_tui.Store.Rows.{Ledger}
use stellarview_tui.Pipeline.Exec.{ok, unfinished, ◌>>=◌}
use stellarview_tui.Pipeline.Exec.Outcome.{ok-injective}
use stellarview_tui.Pipeline.Services.{Services}
use stellarview_tui.Pipeline.Ledger.{
  process_one_ledger, store_ledger, statement, settle, batch, collect, collect_contract_events,
  token_events_of, spawn_contract_specs, publish,
}
use stellarview_tui.Pipeline.Live.Rounds.{Stored}
use stellarview_tui.Pipeline.Lake.{
  DataLake, ledger_entry_from_close_meta, lake_ledger, lake_from, run_lake_worker,
}
use stellarview_tui.Pipeline.Lake.Ends.{LakeCallsEnd, run_lake_worker-finishes}
use stellarview_tui.Pipeline.Lake.Complete.{LakeInOrder, LakeHeadersMatch, run_lake_worker-Stored}
use stellarview_tui.Examples.Nodes.{mark, number_of, number_of-mark, steady, at_five, start}

abbrev eventless : Services
eventless = record steady { token_events_from_ledger_meta = λ meta. ok [] }

-- The metadata of a ledger are its header.
lake : DataLake (Unit {0})
lake = record {
  create_data_store = λ w. (ok tt, w);
  create_backend = λ w. (ok tt, w);
  prepare_range = λ first last w. (ok tt, w);
  get_ledger = λ seq w. (ok (mark seq), w);
  header_of = λ lcm. record { hash = "h"; sequence = number_of lcm; close_time = "0" };
  marshal_header = λ lcm. ok lcm;
}

lake-LakeInOrder : LakeInOrder eventless lake
unfolding lake
lake-LakeInOrder seq w lcm h = ap (λ s. number_of s) (sym (ok-injective h)) ∙ number_of-mark seq

lake-LakeHeadersMatch : LakeHeadersMatch eventless lake
unfolding lake
lake-LakeHeadersMatch lcm xdr entry l marshalled written read =
    ap (λ (r : Ledger). r.sequence) (sym (ok-injective read))
    ∙ ap (λ s. number_of s) (written ∙ sym (ok-injective marshalled))

worked : (run_lake_worker eventless lake 4 6 8 start).0 ≡ ok 3
unfolding run_lake_worker lake_from lake_ledger ledger_entry_from_close_meta lake process_one_ledger
    ◌>>=◌ store_ledger statement settle batch collect collect_contract_events token_events_of
    spawn_contract_specs publish mark number_of
worked = refl

run_lake_worker-Stored_example :
    (3 ≡ 8 + 1 - 6)
    × Stored 6 8 at_five (run_lake_worker eventless lake 4 6 8 start).1.db
    × ((run_lake_worker eventless lake 4 6 8 start).1.db.token_events ≡ at_five.token_events)
run_lake_worker-Stored_example =
    run_lake_worker-Stored eventless lake lake-LakeInOrder lake-LakeHeadersMatch refl 4 6 8 3 start
      (omega arith) (omega arith) worked

lake-LakeCallsEnd : LakeCallsEnd eventless lake
unfolding lake
lake-LakeCallsEnd = record {
  data_store = λ w h. cc;
  backend = λ w h. cc;
  range = λ a b w h. cc;
  ledger = λ seq w h. cc;
  marshalled = λ lcm h. cc;
  entries = λ lcm h. cc;
  header = λ e h. cc;
}

run_lake_worker-finishes_example : (run_lake_worker eventless lake 4 6 8 start).0 ≢ unfinished
run_lake_worker-finishes_example =
    run_lake_worker-finishes eventless lake lake-LakeCallsEnd 8 (omega arith) 4 6 start
      (omega arith)
