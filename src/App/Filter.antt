-- ===== src/App/Filter.antt =====
-- The filters of the live feed: tui/internal/app/live_feed.go and model.go.
use stellarview_tui.Prelude.{
  ◌-◌, String, Bool, true, false, not, ◌&&◌, ◌||◌, List, [], ◌∷◌, ◌++◌, leb, str_eq, if◌then◌else◌,
}
use stellarview_tui.Prelude.Text.{
  trim_space, to_lower, equal_fold, is_empty, cut, join, byte_length, byte_slice, ◌+s◌,
}
use stellarview_tui.Client.Transactions.{TransactionSummary}
use stellarview_tui.App.State.{text, Fallible, failed, done, LiveFeedFilterSpec}
use stellarview_tui.App.Sources.{message}

abbrev pub filter_all : String
filter_all = "all"

abbrev pub filter_soroban : String
filter_soroban = "soroban"

abbrev pub filter_classic : String
filter_classic = "classic"

-- `defaultLiveFeedFilterSpec`
abbrev pub default_live_feed_filter_spec : LiveFeedFilterSpec
default_live_feed_filter_spec = record {
  class = filter_all;
  account = "";
  contract = "";
  asset = "";
  operation_type = "";
}

abbrev pub no_spec : LiveFeedFilterSpec
no_spec = record { class = ""; account = ""; contract = ""; asset = ""; operation_type = "" }

-- `normalizeLiveFeedFilter`
unfoldable pub normalize_live_feed_filter : String → String
normalize_live_feed_filter filter =
    let value = to_lower (trim_space filter) in
    if str_eq value filter_soroban
    then filter_soroban
    else if str_eq value filter_classic
    then filter_classic
    else filter_all

-- `truncateLiveFeedFilterValue`
unfoldable pub truncate_live_feed_filter_value : String → String
truncate_live_feed_filter_value value =
    let v = trim_space value in
    if leb (byte_length v) 12
    then v
    else byte_slice v 0 6 +s "..." +s byte_slice v (byte_length v - 4) (byte_length v)

part : String → String → List String
part key value =
    let v = trim_space value in
    if is_empty v then [] else (key +s ":" +s truncate_live_feed_filter_value v) ∷ []

operation_part : String → List String
operation_part value =
    let v = trim_space value in if is_empty v then [] else ("operation:" +s v) ∷ []

class_part : String → List String
class_part class =
    let c = normalize_live_feed_filter class in if str_eq c filter_all then [] else c ∷ []

or_all : List String → String
or_all [] = filter_all
or_all (p ∷ ps) = join " " (p ∷ ps)

-- `formatLiveFeedFilter`
unfoldable pub format_live_feed_filter : LiveFeedFilterSpec → String
unfolding part operation_part class_part or_all
format_live_feed_filter spec = or_all (
    class_part spec.class
    ++ part "account" spec.account
    ++ part "contract" spec.contract
    ++ part "asset" spec.asset
    ++ operation_part spec.operation_type)

class_matches : String → Bool → Bool
class_matches class is_soroban =
    if str_eq class filter_soroban
    then is_soroban
    else if str_eq class filter_classic
    then not is_soroban
    else true

account_matches : String → TransactionSummary → Bool
account_matches account tx =
    if is_empty account then true else equal_fold (trim_space tx.account) account

contract_matches : String → TransactionSummary → Bool
contract_matches contract tx =
    if is_empty contract
    then true
    else not (is_empty tx.primary_contract_id)
      && equal_fold (trim_space tx.primary_contract_id) contract

asset_matches : String → TransactionSummary → Bool
asset_matches asset tx =
    let (code, issuer, found) = cut b':' asset in
    if is_empty asset
    then true
    else if not found || is_empty (trim_space code) || is_empty (trim_space issuer)
    then false
    else equal_fold (trim_space tx.primary_asset_code) (trim_space code)
      && equal_fold (trim_space tx.primary_asset_issuer) (trim_space issuer)

operation_matches : String → TransactionSummary → Bool
operation_matches operation_type tx =
    if is_empty operation_type
    then true
    else not (is_empty tx.primary_operation_type)
      && equal_fold (trim_space tx.primary_operation_type) operation_type

-- `matchesLiveFeedFilter`
unfoldable pub matches_live_feed_filter : TransactionSummary → LiveFeedFilterSpec → Bool
unfolding class_matches account_matches contract_matches asset_matches operation_matches
matches_live_feed_filter tx spec =
    class_matches (normalize_live_feed_filter spec.class) tx.is_soroban
    && account_matches (trim_space spec.account) tx
    && contract_matches (trim_space spec.contract) tx
    && asset_matches (trim_space spec.asset) tx
    && operation_matches (to_lower (trim_space spec.operation_type)) tx

-- `filterLiveFeedTransactions`
unfoldable pub filter_live_feed_transactions :
    List TransactionSummary → LiveFeedFilterSpec → List TransactionSummary
filter_live_feed_transactions [] spec = []
filter_live_feed_transactions (tx ∷ txs) spec =
    let rest = filter_live_feed_transactions txs spec in
    if matches_live_feed_filter tx spec then tx ∷ rest else rest

-- `nextLiveFeedFilterClass`
unfoldable pub next_live_feed_filter_class : String → String
next_live_feed_filter_class class =
    let c = normalize_live_feed_filter class in
    if str_eq c filter_all
    then filter_soroban
    else if str_eq c filter_soroban
    then filter_classic
    else filter_all

-- What the inner switch of `parseLiveFeedFilterCommand` does: it looks at the field as it was
-- given, while the outer one looked at it in lower case.
with_value : String → String → LiveFeedFilterSpec
with_value key value =
    if str_eq key "account"
    then record default_live_feed_filter_spec { account = value }
    else if str_eq key "contract"
    then record default_live_feed_filter_spec { contract = value }
    else if str_eq key "asset"
    then record default_live_feed_filter_spec { asset = value }
    else if str_eq key "operation"
    then record default_live_feed_filter_spec { operation_type = to_lower value }
    else default_live_feed_filter_spec

valued : String → List String → Fallible LiveFeedFilterSpec
valued key [] = failed (message "usage: live filter %s <value>" (text key ∷ []))
valued key (word ∷ words) =
    if is_empty (trim_space word)
    then failed (message "usage: live filter %s <value>" (text key ∷ []))
    else done (with_value key (trim_space (join " " (word ∷ words))))

-- The words after "filter".
filter_words : String → List String → Fallible LiveFeedFilterSpec
filter_words key words =
    let name = to_lower (trim_space key) in
    if str_eq name filter_all || str_eq name "clear"
    then done default_live_feed_filter_spec
    else if str_eq name filter_soroban
    then done (record default_live_feed_filter_spec { class = filter_soroban })
    else if str_eq name filter_classic
    then done (record default_live_feed_filter_spec { class = filter_classic })
    else if str_eq name "account"
        || str_eq name "contract"
        || str_eq name "asset"
        || str_eq name "operation"
    then valued key words
    else failed (message "unknown live feed filter %q" (text key ∷ []))

-- `parseLiveFeedFilterCommand`
unfoldable pub parse_live_feed_filter_command : List String → Fallible LiveFeedFilterSpec
unfolding with_value valued filter_words
parse_live_feed_filter_command (command ∷ key ∷ words) = filter_words key words
parse_live_feed_filter_command _ = failed (
    message "usage: live filter all|soroban|classic|clear|account|contract|asset|operation <value>"
      [])
