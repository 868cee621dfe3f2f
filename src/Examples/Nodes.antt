-- ===== src/Examples/Nodes.antt =====
-- Three RPC nodes and the headers of their ledgers: one that answers each getLedgers with the ledger that was asked for, one whose
-- answers hold no ledgers, and one whose ledgers do not decode.
use stellarview_tui.Prelude.{ℕ, zero, suc, ◌≡◌, refl, ap, String, Option, none, some, List, [], ◌∷◌}
use stellarview_tui.Prelude.Int.{pos, negsuc}
use stellarview_tui.Store.Rows.{Ledger, TokenEvent}
use stellarview_tui.Store.Db.{Db, empty}
use stellarview_tui.Pipeline.Source.{
  LatestLedgerResult, Pagination, LedgerEntry, GetLedgersResult, GetTransactionsResult,
}
use stellarview_tui.Pipeline.Exec.{Result, ok, err, reported}
use stellarview_tui.Pipeline.Services.{Services, State, idle}

-- The header of a ledger is as many letters as its number.
unfoldable pub mark : ℕ → String
mark zero = String.[]
mark (suc n) = String.◌∷◌ "x" (mark n)

unfoldable pub number_of : String → ℕ
number_of String.[] = 0
number_of (String.◌∷◌ c s) = suc (number_of s)

pub number_of-mark : (n : ℕ) → number_of (mark n) ≡ n
unfolding number_of mark
number_of-mark zero = refl
number_of-mark (suc n) = ap (λ k. suc k) (number_of-mark n)

abbrev pub entry : ℕ → LedgerEntry
entry n = record {
  hash = "h";
  sequence = n;
  ledger_close_time = "0";
  header_xdr = mark n;
  metadata_xdr = "meta";
}

abbrev pub row : ℕ → Ledger
row n = record {
  sequence = n;
  hash = "h";
  prev_hash = "p";
  closed_at = pos 0;
  total_coins = pos 0;
  fee_pool = pos 0;
  base_fee = pos 100;
  base_reserve = pos 0;
  max_tx_set_size = pos 0;
  protocol_version = pos 22;
  transaction_count = pos 0;
  operation_count = pos 0;
  successful_tx_count = pos 0;
  failed_tx_count = pos 0;
  tx_set_operation_count = none;
  header_xdr = none;
}

abbrev pub transfer : TokenEvent
transfer = record {
  event_type = pos 0;
  event_type_name = "transfer";
  from_address = some "GA";
  from_muxed = none;
  to_address = some "GB";
  to_muxed = none;
  to_muxed_id = none;
  asset_type = pos 0;
  asset_code = none;
  asset_issuer = none;
  asset_contract_id = none;
  amount = "1";
  amount_formatted = none;
  transaction_hash = "t";
  ledger_sequence = 7;
  operation_index = none;
  created_at = pos 0;
}

abbrev pub latest : ℕ → LatestLedgerResult
latest n = record { id = ""; sequence = n; close_time = ""; header_xdr = ""; metadata_xdr = "" }

abbrev pub ledgers_result : List LedgerEntry → GetLedgersResult
ledgers_result entries = record {
  ledgers = entries;
  latest_ledger = 0;
  latest_ledger_close_time = pos 0;
  oldest_ledger = 0;
  oldest_ledger_close_time = pos 0;
  cursor = "";
}

abbrev pub no_transactions : GetTransactionsResult
no_transactions = record {
  transactions = [];
  latest_ledger = 0;
  latest_ledger_close_timestamp = pos 0;
  oldest_ledger = 0;
  oldest_ledger_close_timestamp = pos 0;
  cursor = "";
}

-- One ledger from the start, if the limit lets one through.
abbrev pub one_ledger : ℕ → Option Pagination → Result GetLedgersResult
one_ledger start none = err (reported "no limit")
one_ledger start (some page) = elim page.limit [
  | pos zero ↦ err (reported "limit")
  | pos (suc n) ↦ ok (ledgers_result (entry start ∷ []))
  | negsuc n ↦ err (reported "limit")
]

abbrev pub steady : Services
steady = record {
  World = Unit {0};
  get_latest_ledger = λ w. (ok (latest 7), w);
  get_ledgers = λ params w. (one_ledger params.start_ledger params.pagination, w);
  get_transactions = λ params w. (ok no_transactions, w);
  statement_error = λ w. (none, w);
  signal = λ w. (idle, w);
  ledger_from_rpc = λ e. ok (row (number_of e.header_xdr));
  transaction_from_rpc = λ e. err (reported "xdr");
  operations_from_rpc = λ e. err (reported "xdr");
  enrich_soroban_operations = λ ops e w. (ops, w);
  token_events_from_ledger_meta = λ meta. ok (transfer ∷ []);
  contract_events_from_transaction = λ e. ok [];
  enrich_contract_events = λ events w. (events, w);
  detect_new_contracts = λ meta n t. ok [];
  decode_metadata_xdr = λ meta. ok meta;
  transaction_entries_from_close_meta = λ meta. ok [];
}

abbrev pub silent : Services
silent = record steady { get_ledgers = λ params w. (ok (ledgers_result []), w) }

abbrev pub garbled : Services
garbled = record steady { ledger_from_rpc = λ e. err (reported "xdr") }

-- A database whose cursor is at ledger 5.
abbrev pub at_five : Db
at_five = record empty { ledgers = row 5 ∷ []; last_ingested_ledger = some 5 }

abbrev pub start : State (Unit {0})
start = record { world = tt; db = at_five; published = []; spawned = [] }
