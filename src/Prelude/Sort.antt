-- ===== src/Prelude/Sort.antt =====
-- `sort.SliceStable`: a stable insertion sort by a test "less", and what it keeps.
use stellarview_tui.Prelude.Tests.{if◌then◌else◌, Bool-cases}
use stellarview_tui.Prelude.Lists.{length, All, All-append, All-map, take, All-take}
use Prim.Native.Nat.{ℕ, zero, suc}
use mathlib.Core.Path.{◌≡◌, refl, ◌∙◌}
use mathlib.Core.Logic.{inl, inr}
use mathlib.Core.Bool.{Bool, true, false}
use mathlib.Core.List.{List, [], ◌∷◌, ◌++◌}
use native.Mathlib.Omega.{arith}

-- Every element is related to every later one.
abbrev pub Pairwise {ℓ κ} : {A : Type ℓ} → (A → A → Type κ) → List A → Type κ
Pairwise R [] = Unit
Pairwise R (x ∷ xs) = All (R x) xs × Pairwise R xs

module _ {ℓ κ} {A : Type ℓ} (R : A → A → Type κ) where
  pub Pairwise-take : (n : ℕ) (xs : List A) → Pairwise R xs → Pairwise R (take n xs)
  Pairwise-take zero xs h = tt
  Pairwise-take (suc n) [] h = tt
  Pairwise-take (suc n) (x ∷ xs) h = (All-take (R x) n xs h.0, Pairwise-take n xs h.1)

  pub Pairwise-append :
      (xs ys : List A)
      → Pairwise R xs
      → Pairwise R ys
      → All (λ x. All (R x) ys) xs
      → Pairwise R (xs ++ ys)
  Pairwise-append [] ys h k c = k
  Pairwise-append (x ∷ xs) ys h k c =
      (All-append (R x) xs ys h.0 c.0, Pairwise-append xs ys h.1 k c.1)

module _ {ℓ} {A : Type ℓ} (less : A → A → Bool) where
  unfoldable pub insert_by : A → List A → List A
  insert_by x [] = x ∷ []
  insert_by x (y ∷ ys) = if less y x then y ∷ insert_by x ys else x ∷ y ∷ ys

  unfoldable pub sort_stable : List A → List A
  sort_stable [] = []
  sort_stable (x ∷ xs) = insert_by x (sort_stable xs)

  pub length-insert_by : (x : A) (ys : List A) → length (insert_by x ys) ≡ suc (length ys)
  unfolding insert_by
  length-insert_by x [] = refl
  length-insert_by x (y ∷ ys) = elim (Bool-cases (less y x)) [
    | inl e ↦ rw e (omega (arith, length-insert_by x ys))
    | inr e ↦ rw e
  ]

  pub length-sort_stable : (xs : List A) → length (sort_stable xs) ≡ length xs
  unfolding sort_stable
  length-sort_stable [] = refl
  length-sort_stable (x ∷ xs) =
      length-insert_by x (sort_stable xs) ∙ omega (arith, length-sort_stable xs)

  module _ {κ} (P : A → Type κ) where
    All-insert_by : (x : A) (ys : List A) → P x → All P ys → All P (insert_by x ys)
    unfolding insert_by
    All-insert_by x [] p h = (p, tt)
    All-insert_by x (y ∷ ys) p h = elim (Bool-cases (less y x)) [
      | inl e ↦ rw e (h.0, All-insert_by x ys p h.1)
      | inr e ↦ rw e (p, h)
    ]

    pub All-sort_stable : (xs : List A) → All P xs → All P (sort_stable xs)
    unfolding sort_stable
    All-sort_stable [] h = tt
    All-sort_stable (x ∷ xs) h = All-insert_by x (sort_stable xs) h.0 (All-sort_stable xs h.1)

    All-of_insert_by : (x : A) (ys : List A) → All P (insert_by x ys) → P x × All P ys
    unfolding insert_by
    All-of_insert_by x [] h = h
    All-of_insert_by x (y ∷ ys) h = elim (Bool-cases (less y x)) [
      | inl e ↦
          let k : P y × All P (insert_by x ys) = rw e at h in
          let (first, rest) = All-of_insert_by x ys k.1 in (first, (k.0, rest))
      | inr e ↦ rw e at h
    ]

    -- The other way round: what holds of the sorted list holds of the list.
    pub All-of_sort_stable : (xs : List A) → All P (sort_stable xs) → All P xs
    unfolding sort_stable
    All-of_sort_stable [] h = tt
    All-of_sort_stable (x ∷ xs) h =
        let (first, rest) = All-of_insert_by x (sort_stable xs) h in
        (first, All-of_sort_stable xs rest)

  -- A symmetric relation between all elements survives.
  module _ {κ} (R : A → A → Type κ) (symmetric : (x y : A) → R x y → R y x) where
    Pairwise-insert_by :
        (x : A) (ys : List A) → All (R x) ys → Pairwise R ys → Pairwise R (insert_by x ys)
    unfolding insert_by
    Pairwise-insert_by x [] h k = (tt, tt)
    Pairwise-insert_by x (y ∷ ys) h k = elim (Bool-cases (less y x)) [
      | inl e ↦
          rw e (All-insert_by (R y) x ys (symmetric x y h.0) k.0, Pairwise-insert_by x ys h.1 k.1)
      | inr e ↦ rw e (h, k)
    ]

    pub Pairwise-sort_stable : (xs : List A) → Pairwise R xs → Pairwise R (sort_stable xs)
    unfolding sort_stable
    Pairwise-sort_stable [] h = tt
    Pairwise-sort_stable (x ∷ xs) h =
        Pairwise-insert_by x (sort_stable xs) (All-sort_stable (R x) xs h.0)
          (Pairwise-sort_stable xs h.1)

  -- No element is less than one before it.
  abbrev pub IsSorted : List A → Type 0
  IsSorted = Pairwise (λ x y. less y x ≡ false)

  module _ (asymmetric : (x y : A) → less x y ≡ true → less y x ≡ false)
      (through : (x y z : A) → less y x ≡ false → less z y ≡ false → less z x ≡ false) where
    insert_by-IsSorted : (x : A) (ys : List A) → IsSorted ys → IsSorted (insert_by x ys)
    unfolding insert_by
    insert_by-IsSorted x [] h = (tt, tt)
    insert_by-IsSorted x (y ∷ ys) h = elim (Bool-cases (less y x)) [
      | inl e ↦ rw e (
        All-insert_by (λ z. less z y ≡ false) x ys (asymmetric y x e) h.0,
        insert_by-IsSorted x ys h.1,
      )
      | inr e ↦ rw e (
        (e, All-map (λ z. less z y ≡ false) (λ z. less z x ≡ false) ys (λ z. through x y z e) h.0),
        h,
      )
    ]

    pub sort_stable-IsSorted : (xs : List A) → IsSorted (sort_stable xs)
    unfolding sort_stable
    sort_stable-IsSorted [] = tt
    sort_stable-IsSorted (x ∷ xs) = insert_by-IsSorted x (sort_stable xs) (sort_stable-IsSorted xs)
