-- ===== src/Examples/Palette.antt =====
-- Results of the command palette, and the theorems applied to them.
use stellarview_tui.Prelude.{◌≡◌, refl, String, true, List, [], ◌∷◌, length, All}
use stellarview_tui.Prelude.Sort.{sort_stable, insert_by}
use stellarview_tui.Prelude.Text.{to_lower, trim_space, cut}
use stellarview_tui.App.State.{SearchResult}
use stellarview_tui.App.Search.{
  search_key, result_key, parse_metadata_search_query, group_search_results, add_results,
  add_result, search_group_priority,
}
use stellarview_tui.App.Search.Groups.{results_under}
use stellarview_tui.App.Search.Whole.{item_count, group_search_results-items}

abbrev result : String → String → String → SearchResult
result source kind title = record {
  kind = kind;
  title = title;
  description = "";
  command = "";
  enabled = true;
  source = source;
}

abbrev found : List SearchResult
found = result "" "note" "n" ∷ result " Indexer" "Account" "a" ∷ result "local" "note" "m" ∷ []

two_groups : length (group_search_results found) ≡ 2
unfolding group_search_results add_results add_result result_key search_group_priority sort_stable
    insert_by to_lower trim_space
two_groups = refl

filtered : parse_metadata_search_query " Label: My Wallet " ≡ ("label", "my wallet")
unfolding parse_metadata_search_query to_lower trim_space cut
filtered = refl

group_search_results-items_example :
    All
      (λ group. group.items ≡ results_under (search_key group.source group.kind) found)
      (group_search_results found)
    × (item_count (group_search_results found) ≡ 3)
group_search_results-items_example = group_search_results-items found
