-- ===== src/App/Search/Whole.antt =====
-- `GroupSearchResults` (tui/internal/app/search.go) neither loses nor moves a result.
use stellarview_tui.Prelude.{
  ℕ, suc, ◌+◌, ◌≡◌, refl, sym, ap, ◌∙◌, String, true, List, [], ◌∷◌, map, length, length-append,
  All, All-map, str_eq, eq_iff, inl, inr, Bool-cases, arith,
}
use stellarview_tui.Prelude.Sort.{Pairwise, insert_by, sort_stable, All-sort_stable}
use stellarview_tui.App.State.{SearchResult}
use stellarview_tui.App.Search.{
  SearchGroup, search_key, result_key, add_result, add_results, before, group_of,
  group_search_results,
}
use stellarview_tui.App.Search.Groups.{
  results_under, items_at, items_at-add_results, IsKeyed, Apart, add_results-kept,
}

All-both :
    {A : Type 0} (P Q : A → Type 0) (xs : List A) → All P xs → All Q xs → All (λ x. P x × Q x) xs
All-both P Q [] h k = tt
All-both P Q (x ∷ xs) h k = ((h.0, k.0), All-both P Q xs h.1 k.1)

All-group_of :
    (P : SearchGroup → Type 0) (entries : List (String × SearchGroup))
    → All (λ entry. P (group_of entry)) entries
    → All P (map group_of entries)
All-group_of P [] h = tt
All-group_of P (entry ∷ entries) h = (h.0, All-group_of P entries h.1)

abbrev AtKey : List (String × SearchGroup) → String × SearchGroup → Type 0
AtKey entries entry = items_at entry.0 entries ≡ entry.1.items

Apart-AtKey :
    (entries : List (String × SearchGroup)) → Pairwise Apart entries → All (AtKey entries) entries
Apart-AtKey [] h = tt
Apart-AtKey ((k, group) ∷ rest) h =
    let self : str_eq k k ≡ true = (eq_iff k k).1 refl in
    (
      rw self refl,
      All-map (λ e. Apart (k, group) e × AtKey rest e) (AtKey ((k, group) ∷ rest)) rest
          (λ e p. rw (p.0) p.1)
          (All-both (Apart (k, group)) (AtKey rest) rest h.0 (Apart-AtKey rest h.1)),
    )

-- All items of the groups are counted.
abbrev pub item_count : List SearchGroup → ℕ
item_count [] = 0
item_count (group ∷ groups) = length group.items + item_count groups

item_count-add_result :
    (result : SearchResult) (entries : List (String × SearchGroup))
    → item_count (map group_of (add_result result entries))
      ≡ suc (item_count (map group_of entries))
unfolding add_result
item_count-add_result result [] = refl
item_count-add_result result ((k, group) ∷ rest) =
    elim (Bool-cases (str_eq k (result_key result))) [
      | inl here ↦ rw (here, length-append) (omega arith)
      | inr later ↦ rw later (omega (arith, item_count-add_result result rest))
    ]

item_count-add_results :
    (results : List SearchResult) (entries : List (String × SearchGroup))
    → item_count (map group_of (add_results results entries))
      ≡ length results + item_count (map group_of entries)
unfolding add_results
item_count-add_results [] entries = omega arith
item_count-add_results (result ∷ results) entries = omega (
  arith,
  item_count-add_results results (add_result result entries),
  item_count-add_result result entries,
)

item_count-insert_by :
    (group : SearchGroup) (groups : List SearchGroup)
    → item_count (insert_by before group groups) ≡ length group.items + item_count groups
unfolding insert_by
item_count-insert_by group [] = refl
item_count-insert_by group (first ∷ rest) = elim (Bool-cases (before first group)) [
  | inl less ↦ rw less (omega (arith, item_count-insert_by group rest))
  | inr more ↦ rw more refl
]

item_count-sort_stable :
    (groups : List SearchGroup) → item_count (sort_stable before groups) ≡ item_count groups
unfolding sort_stable
item_count-sort_stable [] = refl
item_count-sort_stable (group ∷ groups) =
    omega
      (arith, item_count-insert_by group (sort_stable before groups), item_count-sort_stable groups)

-- Each group of `group_search_results` holds exactly the results with the group's key, its source
-- and kind joined by a slash, in the order in which they came, and together the groups have as many
-- items as there are results.
pub group_search_results-items :
    (results : List SearchResult)
    → All
        (λ group. group.items ≡ results_under (search_key group.source group.kind) results)
        (group_search_results results)
      × (item_count (group_search_results results) ≡ length results)
unfolding group_search_results
group_search_results-items results =
    let entries = add_results results [] in
    let (keyed, apart) = add_results-kept results [] (tt, tt) in
    let Kept : SearchGroup → Type 0 =
      λ group. group.items ≡ results_under (search_key group.source group.kind) results in
    let own =
      All-map (λ e. IsKeyed e × AtKey entries e) (λ e. Kept (group_of e)) entries
        (λ e p.
          sym p.1 ∙ items_at-add_results e.0 results [] ∙ ap (λ key. results_under key results) p.0)
        (All-both IsKeyed (AtKey entries) entries keyed (Apart-AtKey entries apart)) in
    (
      All-sort_stable before Kept (map group_of entries) (All-group_of Kept entries own),
      item_count-sort_stable (map group_of entries)
          ∙ omega (arith, item_count-add_results results []),
    )
