-- ===== src/App/Ranking.antt =====
-- The ranking of the rows of the command palette: `RankSearchResults` of tui/internal/app/model.go.
-- Its sort only compares a later row with an earlier one, so that rows of one score stay in order.
use stellarview_tui.Prelude.{
  ℕ, String, Bool, true, false, not, ◌&&◌, ◌||◌, List, [], ◌∷◌, ltb, leb, str_eq, if◌then◌else◌,
  arith,
}
use stellarview_tui.Prelude.Int.{ℤ, pos, negsuc, ◌+ℤ◌, ltb_ℤ}
use stellarview_tui.Prelude.Text.{
  trim_space, is_empty, to_lower, fields, join, cut, contains, starts_with, trim_prefix, all_chars,
  byte_length, ◌+s◌,
}
use stellarview_tui.Prelude.Sort.{sort_stable, IsSorted, sort_stable-IsSorted}
use stellarview_tui.App.State.{SearchResult}

abbrev is_lower_hex : ℕ → Bool
is_lower_hex c = leb b'0' c && leb c b'9' || leb b'a' c && leb c b'f'

-- `isPartialHexQuery`
unfoldable pub is_partial_hex_query : String → Bool
is_partial_hex_query query =
    leb 8 (byte_length query) && ltb (byte_length query) 64 && all_chars is_lower_hex query

-- `parseAssetQuery`, with its `ok` last
unfoldable pub parse_asset_query : String → String × String × Bool
parse_asset_query query =
    let (before, after, found) = cut b':' query in
    let asset = trim_space before in
    let issuer = trim_space after in
    if found && not (is_empty asset) && not (is_empty issuer)
    then (to_lower asset, to_lower issuer, true)
    else ("", "", false)

target_of : List String → String
target_of [] = ""
target_of (first ∷ []) = ""
target_of (first ∷ kind ∷ []) = ""
target_of (first ∷ kind ∷ word ∷ words) =
    if str_eq first "lookup" then join " " (word ∷ words) else ""

-- `commandTarget`
unfoldable pub command_target : String → String
unfolding target_of
command_target command = target_of (fields (to_lower (trim_space command)))

abbrev points : Bool → ℕ → ℤ
points found n = if found then pos n else pos 0

source_points : String → ℤ
source_points source =
    if str_eq source "indexer"
    then pos 10
    else if str_eq source "horizon"
    then pos 8
    else points (str_eq source "local") 6

target_points : String → String → ℤ
target_points query target =
    if str_eq target query
    then pos 140
    else if starts_with target query
    then pos 90
    else points (contains target query) 45

asset_points : String → String × String × Bool → ℤ
asset_points command (asset, issuer, found) =
    if found
    then if contains command (asset +s ":" +s issuer)
      then pos 120
      else points (contains command (asset +s ":")) 70
    else pos 0

title_points : String → String → String → ℤ
title_points query title bare =
    if str_eq title query || str_eq bare query
    then pos 100
    else if starts_with title query || starts_with bare query
    then pos 70
    else points (contains title query) 35

-- What the query adds to the score.
query_points : String → SearchResult → ℤ
unfolding target_points asset_points title_points
query_points query result =
    let kind = to_lower (trim_space result.kind) in
    let title = to_lower (trim_space result.title) in
    let description = to_lower (trim_space result.description) in
    let command = to_lower (trim_space result.command) in
    target_points query (command_target command)
    +ℤ points (is_partial_hex_query query && contains command query) 60
    +ℤ asset_points command (parse_asset_query query)
    +ℤ title_points query title (trim_prefix title (kind +s " "))
    +ℤ points (str_eq kind query) 25
    +ℤ points (contains description query) 15

-- `searchResultScore`
unfoldable pub search_result_score : String → SearchResult → ℤ
unfolding source_points query_points
search_result_score query result =
    let score =
      (if result.enabled then pos 20 else negsuc 99)
      +ℤ source_points (to_lower (trim_space result.source)) in
    if is_empty query then score else score +ℤ query_points query result

abbrev pub scores_above : String → SearchResult → SearchResult → Bool
scores_above query a b = ltb_ℤ (search_result_score query b) (search_result_score query a)

-- `RankSearchResults`
unfoldable pub rank_search_results : String → List SearchResult → List SearchResult
rank_search_results query results = sort_stable (scores_above (to_lower (trim_space query))) results

-- The ranked rows are in the order of their scores.
pub rank_search_results-IsSorted :
    (query : String) (results : List SearchResult)
    → IsSorted (scores_above (to_lower (trim_space query))) (rank_search_results query results)
unfolding rank_search_results
rank_search_results-IsSorted query results =
    sort_stable-IsSorted (scores_above (to_lower (trim_space query))) (λ x y k. ground arith)
      (λ x y z k l. ground arith) results
