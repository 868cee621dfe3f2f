-- ===== src/Cache/Table/Laws.antt =====
-- What the statements do to a table that is read by its key, and that keys stay distinct.
use stellarview_tui.Prelude.{
  ◌≡◌, refl, sym, subst, ◌∙◌, ◌↔◌, String, Bool, true, false, Option, none, some, inl, inr, List,
  [], ◌∷◌, All, eq_iff, if◌then◌else◌, Bool-cases, arith,
}
use stellarview_tui.Prelude.Sort.{Pairwise}
use stellarview_tui.Cache.Table.{keys_eq, delete, has_key, get, upsert}

pub keys_eq_iff : (k l : List String) → (keys_eq k l ≡ true) ↔ (k ≡ l)
unfolding keys_eq
keys_eq_iff [] [] = (λ h. refl, λ h. refl)
keys_eq_iff [] (t ∷ ts) = (λ h. cc, λ h. cc)
keys_eq_iff (s ∷ ss) [] = (λ h. cc, λ h. cc)
keys_eq_iff (s ∷ ss) (t ∷ ts) = ground (arith, keys_eq_iff ss ts, eq_iff s t)

pub keys_eq_sym : (k l : List String) → keys_eq k l ≡ false → keys_eq l k ≡ false
keys_eq_sym k l h = elim (Bool-cases (keys_eq l k)) [
  | inl e ↦ let again = (keys_eq_iff k l).1 (sym ((keys_eq_iff l k).0 e)) in cc
  | inr e ↦ e
]

module _ {A : Type 0} (key : A → List String) where
  -- Two rows with different keys.
  abbrev pub Apart : A → A → Type 0
  Apart x y = keys_eq (key x) (key y) ≡ false

  abbrev pub HasDistinctKeys : List A → Type 0
  HasDistinctKeys = Pairwise Apart

  -- What a row is after an upsert, from what was there.
  abbrev pub merged : (A → A → A) → A → Option A → A
  merged update new none = new
  merged update new (some old) = update old new

  module _ (update : A → A → A) (keeps : (old new : A) → key (update old new) ≡ key old) where
    pub get-upsert :
        (k : List String) (new : A) (rows : List A)
        → get key k (upsert key update new rows) ≡ (
            if keys_eq (key new) k
            then some (merged update new (get key k rows))
            else get key k rows)
    unfolding get upsert
    get-upsert k new [] = refl
    get-upsert k new (old ∷ rows) = elim (Bool-cases (keys_eq (key old) (key new))) [
      | inl here ↦
          let same = (keys_eq_iff (key old) (key new)).0 here in
          elim (Bool-cases (keys_eq (key new) k)) [
            | inl found ↦ rw (here, keeps old new, same, found) refl
            | inr other ↦ rw (here, keeps old new, same, other) refl
          ]
      | inr later ↦ elim (Bool-cases (keys_eq (key old) k)) [
        | inl found ↦
            let same = (keys_eq_iff (key old) k).0 found in
            let other = keys_eq_sym k (key new) (rw same at later) in rw (later, found, other) refl
        | inr other ↦ rw (later, other) (get-upsert k new rows)
      ]
    ]

    All-upsert :
        (P : List String → Type 0) (new : A) (rows : List A)
        → P (key new)
        → All (λ row. P (key row)) rows
        → All (λ row. P (key row)) (upsert key update new rows)
    unfolding upsert
    All-upsert P new [] p h = (p, tt)
    All-upsert P new (old ∷ rows) p h = elim (Bool-cases (keys_eq (key old) (key new))) [
      | inl here ↦ rw (here, keeps old new) h
      | inr later ↦ rw later (h.0, All-upsert P new rows p h.1)
    ]

    pub upsert-HasDistinctKeys :
        (new : A) (rows : List A)
        → HasDistinctKeys rows
        → HasDistinctKeys (upsert key update new rows)
    unfolding upsert
    upsert-HasDistinctKeys new [] h = (tt, tt)
    upsert-HasDistinctKeys new (old ∷ rows) h = elim (Bool-cases (keys_eq (key old) (key new))) [
      | inl here ↦
          rw here
            (subst (λ k. All (λ y. keys_eq k (key y) ≡ false) rows) (sym (keeps old new)) h.0, h.1)
      | inr later ↦ rw later (
        All-upsert (λ k. keys_eq (key old) k ≡ false) new rows later h.0,
        upsert-HasDistinctKeys new rows h.1,
      )
    ]

  All-delete {κ} :
      (P : A → Type κ) (test : A → Bool) (rows : List A) → All P rows → All P (delete test rows)
  unfolding delete
  All-delete P test [] h = tt
  All-delete P test (row ∷ rows) h = elim (Bool-cases (test row)) [
    | inl gone ↦ rw gone (All-delete P test rows h.1)
    | inr kept ↦ rw kept (h.0, All-delete P test rows h.1)
  ]

  pub delete-HasDistinctKeys :
      (test : A → Bool) (rows : List A) → HasDistinctKeys rows → HasDistinctKeys (delete test rows)
  unfolding delete
  delete-HasDistinctKeys test [] h = tt
  delete-HasDistinctKeys test (row ∷ rows) h = elim (Bool-cases (test row)) [
    | inl gone ↦ rw gone (delete-HasDistinctKeys test rows h.1)
    | inr kept ↦
        rw kept (All-delete (Apart row) test rows h.0, delete-HasDistinctKeys test rows h.1)
  ]

  -- A statement that deletes the row of one key.
  pub get-delete :
      (k gone : List String) (rows : List A)
      → get key k (delete (has_key key gone) rows)
        ≡ (if keys_eq gone k then none else get key k rows)
  unfolding get delete
  get-delete k gone [] = ground arith
  get-delete k gone (row ∷ rows) = elim (Bool-cases (keys_eq (key row) gone)) [
    | inl here ↦
        let same = (keys_eq_iff (key row) gone).0 here in
        elim (Bool-cases (keys_eq gone k)) [
          | inl found ↦ rw (here, same, found) (get-delete k gone rows ∙ rw found refl)
          | inr other ↦ rw (here, same, other) (get-delete k gone rows ∙ rw other refl)
        ]
    | inr later ↦ elim (Bool-cases (keys_eq (key row) k)) [
      | inl found ↦
          let same = (keys_eq_iff (key row) k).0 found in
          let other = keys_eq_sym k gone (rw same at later) in rw (later, found, other) refl
      | inr other ↦ rw (later, other) (get-delete k gone rows)
    ]
  ]

  -- What a lookup finds has the key.
  pub get-key :
      (k : List String) (rows : List A) (row : A) → get key k rows ≡ some row → key row ≡ k
  unfolding get
  get-key k [] row h = cc
  get-key k (r ∷ rows) row h = elim (Bool-cases (keys_eq (key r) k)) [
    | inl here ↦
        let e : some r ≡ some row = rw here at h in
        let same : r ≡ row = cc in rw (← same) ((keys_eq_iff (key r) k).0 here)
    | inr later ↦ get-key k rows row (rw later at h)
  ]
