-- ===== src/Cache/Table.antt =====
-- Tables of the local store: a list of rows in the order of their insertion, with a key of texts
-- (the columns of the conflict target of the table's INSERT).
pub mod Laws
use stellarview_tui.Prelude.{
  ℕ, String, Bool, true, false, not, ◌&&◌, Option, none, some, List, [], ◌∷◌, str_eq, if◌then◌else◌,
}

unfoldable pub keys_eq : List String → List String → Bool
keys_eq [] [] = true
keys_eq [] (t ∷ ts) = false
keys_eq (s ∷ ss) [] = false
keys_eq (s ∷ ss) (t ∷ ts) = str_eq s t && keys_eq ss ts

module _ {A : Type 0} where
  -- SELECT … WHERE
  unfoldable pub select : (A → Bool) → List A → List A
  select test [] = []
  select test (row ∷ rows) = let rest = select test rows in if test row then row ∷ rest else rest

  -- DELETE … WHERE
  unfoldable pub delete : (A → Bool) → List A → List A
  delete test [] = []
  delete test (row ∷ rows) = let rest = delete test rows in if test row then rest else row ∷ rest

  -- SELECT … LIMIT 1
  unfoldable pub first : List A → Option A
  first [] = none
  first (row ∷ rows) = some row

module _ {A : Type 0} (key : A → List String) where
  abbrev pub has_key : List String → A → Bool
  has_key k row = keys_eq (key row) k

  -- SELECT … WHERE the key is `k` LIMIT 1
  unfoldable pub get : List String → List A → Option A
  get k [] = none
  get k (row ∷ rows) = if has_key k row then some row else get k rows

  -- INSERT … ON CONFLICT(key) DO UPDATE: `update old new` is the row after the update.
  unfoldable pub upsert : (A → A → A) → A → List A → List A
  upsert update new [] = new ∷ []
  upsert update new (old ∷ rows) =
      if keys_eq (key old) (key new) then update old new ∷ rows else old ∷ upsert update new rows
