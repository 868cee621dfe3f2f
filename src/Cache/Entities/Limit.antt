-- ===== src/Cache/Entities/Limit.antt =====
-- How many entities of a profile the cache keeps.
use stellarview_tui.Prelude.{
  ℕ, suc, ◌≤◌, ◌≡◌, refl, String, Bool, true, false, not, ◌&&◌, inl, inr, List, [], ◌∷◌, length,
  length-take, take, All, Bool-cases, arith,
}
use stellarview_tui.Cache.Rows.{EntityCache}
use stellarview_tui.Cache.Table.{keys_eq, select, delete}
use stellarview_tui.Cache.Table.Laws.{keys_eq_iff, HasDistinctKeys, delete-HasDistinctKeys}
use stellarview_tui.Cache.Entities.{entity_key, of_profile, latest_of, is_among, pruned}

abbrev same_key : EntityCache → EntityCache → Bool
same_key x row = keys_eq (entity_key row) (entity_key x)

-- Taking out the rows with a key that is there shortens a list.
length-delete :
    (x : EntityCache) (rows : List EntityCache) → length (delete (same_key x) rows) ≤ length rows
unfolding delete
length-delete x [] = omega arith
length-delete x (row ∷ rows) = ground (arith, length-delete x rows)

length-delete-lt :
    (x : EntityCache) (rows : List EntityCache)
    → is_among x rows ≡ true
    → suc (length (delete (same_key x) rows)) ≤ length rows
unfolding delete is_among
length-delete-lt x [] h = cc
length-delete-lt x (row ∷ rows) h = elim (Bool-cases (same_key x row)) [
  | inl here ↦ rw here (omega (arith, length-delete x rows))
  | inr later ↦ let rest = length-delete-lt x rows (rw later at h) in rw later (omega (arith, rest))
]

is_among-delete :
    (x y : EntityCache) (rows : List EntityCache)
    → keys_eq (entity_key x) (entity_key y) ≡ false
    → is_among y rows ≡ true
    → is_among y (delete (same_key x) rows) ≡ true
unfolding delete is_among
is_among-delete x y [] h k = cc
is_among-delete x y (row ∷ rows) h k = elim (Bool-cases (same_key x row)) [
  | inl here ↦
      let same = (keys_eq_iff (entity_key row) (entity_key x)).0 here in
      let other : same_key y row ≡ false = rw same h in
      rw here (is_among-delete x y rows h (rw other at k))
  | inr later ↦ elim (Bool-cases (same_key y row)) [
    | inl found ↦ rw (later, found) refl
    | inr other ↦ rw (later, other) (is_among-delete x y rows h (rw other at k))
  ]
]

All-among-delete :
    (x : EntityCache) (xs rows : List EntityCache)
    → All (λ y. keys_eq (entity_key x) (entity_key y) ≡ false) xs
    → All (λ y. is_among y rows ≡ true) xs
    → All (λ y. is_among y (delete (same_key x) rows) ≡ true) xs
All-among-delete x [] rows h k = tt
All-among-delete x (y ∷ ys) rows h k =
    (is_among-delete x y rows h.0 k.0, All-among-delete x ys rows h.1 k.1)

-- Rows with distinct keys that are all among others are not more than those.
length-among :
    (xs rows : List EntityCache)
    → HasDistinctKeys entity_key xs
    → All (λ x. is_among x rows ≡ true) xs
    → length xs ≤ length rows
length-among [] rows h k = omega arith
length-among (x ∷ xs) rows h k = omega (
  arith,
  length-among xs (delete (same_key x) rows) h.1 (All-among-delete x xs rows h.0 k.1),
  length-delete-lt x rows k.0,
)

-- What the prune leaves of the profile.
module _ (profile_id : String) (kept : List EntityCache) where
  abbrev goes : EntityCache → Bool
  goes row = of_profile profile_id row && not (is_among row kept)

  survivors-among :
      (rows : List EntityCache)
      → All (λ x. is_among x kept ≡ true) (select (of_profile profile_id) (delete goes rows))
  unfolding select delete
  survivors-among [] = tt
  survivors-among (row ∷ rows) = elim (Bool-cases (of_profile profile_id row)) [
    | inl own ↦ elim (Bool-cases (is_among row kept)) [
      | inl stays ↦ rw (own, stays, own) (stays, survivors-among rows)
      | inr gone ↦ rw (own, gone) (survivors-among rows)
    ]
    | inr foreign ↦ rw (foreign, foreign) (survivors-among rows)
  ]

All-select :
    (P : EntityCache → Type 0) (test : EntityCache → Bool) (rows : List EntityCache)
    → All P rows
    → All P (select test rows)
unfolding select
All-select P test [] h = tt
All-select P test (row ∷ rows) h = elim (Bool-cases (test row)) [
  | inl found ↦ rw found (h.0, All-select P test rows h.1)
  | inr other ↦ rw other (All-select P test rows h.1)
]

select-HasDistinctKeys :
    (test : EntityCache → Bool) (rows : List EntityCache)
    → HasDistinctKeys entity_key rows
    → HasDistinctKeys entity_key (select test rows)
unfolding select
select-HasDistinctKeys test [] h = tt
select-HasDistinctKeys test (row ∷ rows) h = elim (Bool-cases (test row)) [
  | inl found ↦ rw found (All-select _ test rows h.0, select-HasDistinctKeys test rows h.1)
  | inr other ↦ rw other (select-HasDistinctKeys test rows h.1)
]

-- A prune leaves no more rows of its profile than it was told to.
pub pruned-length :
    (profile_id : String) (n : ℕ) (rows : List EntityCache)
    → HasDistinctKeys entity_key rows
    → length (select (of_profile profile_id) (pruned profile_id n rows)) ≤ n
unfolding pruned
pruned-length profile_id n rows h =
    let kept = take n (latest_of profile_id rows) in
    let left = delete (goes profile_id kept) rows in
    omega (
      arith,
      length-among (select (of_profile profile_id) left) kept
          (select-HasDistinctKeys (of_profile profile_id) left
            (delete-HasDistinctKeys entity_key (goes profile_id kept) rows h))
          (survivors-among profile_id kept rows),
      length-take n (latest_of profile_id rows),
    )
