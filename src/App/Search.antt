-- ===== src/App/Search.antt =====
-- The results of the command palette: tui/internal/app/search.go.
pub mod Groups
pub mod Whole
use stellarview_tui.Prelude.{
  ℕ, ◌+◌, String, Bool, true, false, ◌||◌, ltb, List, [], ◌∷◌, ◌++◌, map, str_eq, if◌then◌else◌,
}
use stellarview_tui.Prelude.Text.{trim_space, to_lower, is_empty, cut}
use stellarview_tui.Prelude.Sort.{sort_stable}
use stellarview_tui.App.State.{SearchResult}
use Prim.Native.String.{◌++◌ as cat}

abbrev pub default_search_result_limit : ℕ
default_search_result_limit = 8

pub record SearchGroup : Type 0 where
  pub source : String
  pub kind : String
  pub items : List SearchResult

abbrev folded : String → String
folded value = to_lower (trim_space value)

is_metadata_prefix : String → Bool
is_metadata_prefix prefix =
    str_eq prefix "label"
    || str_eq prefix "bookmark"
    || str_eq prefix "note"
    || str_eq prefix "cache"
    || str_eq prefix "view"
    || str_eq prefix "watch"

-- What follows the first test of `ParseMetadataSearchQuery`, on the two sides of the colon.
split_query : String → String × String × Bool → String × String
unfolding is_metadata_prefix
split_query input (prefix, remainder, false) = ("", to_lower input)
split_query input (prefix, remainder, true) =
    if is_metadata_prefix (folded prefix)
    then (folded prefix, folded remainder)
    else ("", to_lower input)

-- `ParseMetadataSearchQuery`
unfoldable pub parse_metadata_search_query : String → String × String
unfolding split_query
parse_metadata_search_query text =
    let input = trim_space text in
    if is_empty input then ("", "") else split_query input (cut b':' input)

abbrev pub or_else : String → String → String
or_else value fallback = if is_empty value then fallback else value

abbrev pub source_of : SearchResult → String
source_of result = or_else (folded result.source) "local"

abbrev pub kind_of : SearchResult → String
kind_of result = or_else (folded result.kind) "result"

-- The key of a result's group, from the source and the kind.
abbrev pub search_key : String → String → String
search_key source kind = cat source (cat "/" kind)

unfoldable pub result_key : SearchResult → String
result_key result = search_key (source_of result) (kind_of result)

abbrev pub new_group : SearchResult → SearchGroup
new_group result = record { source = source_of result; kind = kind_of result; items = result ∷ [] }

-- The map of groups and the order of their keys in one: the keys with their groups, each added at
-- the end.
unfoldable pub add_result : SearchResult → List (String × SearchGroup) → List (String × SearchGroup)
add_result result [] = (result_key result, new_group result) ∷ []
add_result result ((key, group) ∷ rest) =
    if str_eq key (result_key result)
    then (key, record group { items = group.items ++ result ∷ [] }) ∷ rest
    else (key, group) ∷ add_result result rest

unfoldable pub add_results :
    List SearchResult → List (String × SearchGroup) → List (String × SearchGroup)
add_results [] groups = groups
add_results (result ∷ results) groups = add_results results (add_result result groups)

source_score : String → ℕ
source_score source =
    if str_eq source "horizon" then 10 else if str_eq source "local" then 20 else 0

kind_score : String → ℕ
kind_score kind =
    if str_eq kind "transaction"
    then 10
    else if str_eq kind "contract"
    then 20
    else if str_eq kind "asset"
    then 30
    else if str_eq kind "ledger"
    then 40
    else if str_eq kind "bookmark"
    then 50
    else if str_eq kind "note"
    then 60
    else if str_eq kind "label"
    then 70
    else if str_eq kind "cache"
    then 80
    else if str_eq kind "view"
    then 90
    else if str_eq kind "watch"
    then 100
    else if str_eq kind "command"
    then 110
    else if str_eq kind "result"
    then 120
    else 0

-- A source or a kind that is not in its map has the score 0.
unfoldable pub search_group_priority : SearchGroup → ℕ
unfolding source_score kind_score
search_group_priority group = source_score (folded group.source) + kind_score (folded group.kind)

-- The test of `sort.SliceStable`, which calls it with a later position first: on equal
-- priorities, where the source compares the positions, it is false.
abbrev pub before : SearchGroup → SearchGroup → Bool
before left right = ltb (search_group_priority left) (search_group_priority right)

abbrev pub group_of : String × SearchGroup → SearchGroup
group_of entry = entry.1

-- `GroupSearchResults`
unfoldable pub group_search_results : List SearchResult → List SearchGroup
group_search_results results = sort_stable before (map group_of (add_results results []))
