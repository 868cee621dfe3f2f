-- ===== src/App/Search/Groups.antt =====
-- The groups of `GroupSearchResults` (tui/internal/app/search.go).
use stellarview_tui.Prelude.{
  ◌≡◌, refl, ap, ◌∙◌, String, false, List, [], ◌∷◌, ◌++◌, All, str_eq, eq_iff, inl, inr,
  if◌then◌else◌, Bool-cases,
}
use stellarview_tui.Prelude.Order.{str_eq_sym}
use stellarview_tui.Prelude.Sort.{Pairwise}
use stellarview_tui.App.State.{SearchResult}
use stellarview_tui.App.Search.{SearchGroup, search_key, result_key, add_result, add_results}
use mathlib.Core.List.{append_assoc, append-nil}

-- The results with a key, in their order.
abbrev pub results_under : String → List SearchResult → List SearchResult
results_under key [] = []
results_under key (result ∷ results) =
    let rest = results_under key results in
    if str_eq (result_key result) key then result ∷ rest else rest

-- The items of the first group with a key.
abbrev pub items_at : String → List (String × SearchGroup) → List SearchResult
items_at key [] = []
items_at key ((k, group) ∷ rest) =
    let later = items_at key rest in if str_eq k key then group.items else later

items_at-add_result :
    (key : String) (result : SearchResult) (groups : List (String × SearchGroup))
    → items_at key (add_result result groups)
      ≡ items_at key groups ++ results_under key (result ∷ [])
unfolding add_result
items_at-add_result key result [] = refl
items_at-add_result key result ((k, group) ∷ rest) =
    elim (Bool-cases (str_eq k (result_key result))) [
      | inl here ↦
          let same : k ≡ result_key result = (eq_iff k (result_key result)).0 here in
          elim (Bool-cases (str_eq (result_key result) key)) [
            | inl found ↦ rw (here, same, found) refl
            | inr other ↦ rw (here, same, other, append-nil) refl
          ]
      | inr later ↦ elim (Bool-cases (str_eq k key)) [
        | inl found ↦
            let same : k ≡ key = (eq_iff k key).0 found in
            let other : str_eq (result_key result) key ≡ false =
              str_eq_sym _ _ (rw same at later) in
            rw (later, found, other, append-nil) refl
        | inr other ↦ rw (later, other) (items_at-add_result key result rest)
      ]
    ]

results_under-cons :
    (key : String) (result : SearchResult) (results : List SearchResult)
    → results_under key (result ∷ []) ++ results_under key results
      ≡ results_under key (result ∷ results)
results_under-cons key result results = elim (Bool-cases (str_eq (result_key result) key)) [
  | inl found ↦ rw found refl
  | inr other ↦ rw other refl
]

pub items_at-add_results :
    (key : String) (results : List SearchResult) (groups : List (String × SearchGroup))
    → items_at key (add_results results groups) ≡ items_at key groups ++ results_under key results
unfolding add_results
items_at-add_results key [] groups = rw append-nil refl
items_at-add_results key (result ∷ results) groups =
    items_at-add_results key results (add_result result groups)
    ∙ ap (λ l. l ++ results_under key results) (items_at-add_result key result groups)
    ∙ append_assoc (items_at key groups) (results_under key (result ∷ []))
        (results_under key results)
    ∙ ap (λ l. items_at key groups ++ l) (results_under-cons key result results)

-- A key is that of the source and the kind of its group.
abbrev pub IsKeyed : String × SearchGroup → Type 0
IsKeyed entry = entry.0 ≡ search_key entry.1.source entry.1.kind

abbrev pub Apart : String × SearchGroup → String × SearchGroup → Type 0
Apart x y = str_eq x.0 y.0 ≡ false

add_result-IsKeyed :
    (result : SearchResult) (groups : List (String × SearchGroup))
    → All IsKeyed groups
    → All IsKeyed (add_result result groups)
unfolding add_result result_key
add_result-IsKeyed result [] h = (refl, tt)
add_result-IsKeyed result ((k, group) ∷ rest) h = elim (Bool-cases (str_eq k (result_key result))) [
  | inl here ↦ rw here h
  | inr later ↦ rw later (h.0, add_result-IsKeyed result rest h.1)
]

All-add_result :
    (P : String → Type 0) (result : SearchResult) (groups : List (String × SearchGroup))
    → P (result_key result)
    → All (λ entry. P entry.0) groups
    → All (λ entry. P entry.0) (add_result result groups)
unfolding add_result
All-add_result P result [] p h = (p, tt)
All-add_result P result ((k, group) ∷ rest) p h = elim (Bool-cases (str_eq k (result_key result))) [
  | inl here ↦ rw here h
  | inr later ↦ rw later (h.0, All-add_result P result rest p h.1)
]

add_result-Apart :
    (result : SearchResult) (groups : List (String × SearchGroup))
    → Pairwise Apart groups
    → Pairwise Apart (add_result result groups)
unfolding add_result
add_result-Apart result [] h = (tt, tt)
add_result-Apart result ((k, group) ∷ rest) h = elim (Bool-cases (str_eq k (result_key result))) [
  | inl here ↦ rw here h
  | inr later ↦ rw later (
    All-add_result (λ other. str_eq k other ≡ false) result rest later h.0,
    add_result-Apart result rest h.1,
  )
]

pub add_results-kept :
    (results : List SearchResult) (groups : List (String × SearchGroup))
    → All IsKeyed groups × Pairwise Apart groups
    → All IsKeyed (add_results results groups) × Pairwise Apart (add_results results groups)
unfolding add_results
add_results-kept [] groups h = h
add_results-kept (result ∷ results) groups h =
    add_results-kept results (add_result result groups)
      (add_result-IsKeyed result groups h.0, add_result-Apart result groups h.1)
