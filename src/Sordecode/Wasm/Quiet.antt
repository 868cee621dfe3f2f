-- ===== src/Sordecode/Wasm/Quiet.antt =====
-- The sections that `ExtractSpecFromWASM` (sordecode/wasm.go) passes over.
use stellarview_tui.Prelude.{
  ℕ, ◌^◌, ◌<◌, ◌≡◌, ◌≢◌, ◌⊎◌, refl, ap, ◌∙◌, true, false, ◌==◌, none, inl, inr, List, [], ◌∷◌, ◌++◌,
  length, length-append, take, drop, ltb, Bool-cases, arith,
}
use stellarview_tui.Sordecode.Wasm.{
  number, read_uleb128, read_bytes, same_bytes, spec_after, named_after, named_spec, section_spec,
  contract_spec_section_name,
}
use stellarview_tui.Sordecode.Wasm.Leb.{leb128, read_uleb128-leb128}

pub take-append : (xs ys : List ℕ) → take (length xs) (xs ++ ys) ≡ xs
take-append [] ys = refl
take-append (x ∷ xs) ys = ap (λ l. x ∷ l) (take-append xs ys)

pub drop-append : (xs ys : List ℕ) → drop (length xs) (xs ++ ys) ≡ ys
drop-append [] ys = refl
drop-append (x ∷ xs) ys = drop-append xs ys

-- The data of a custom section: its name and what comes after it.
abbrev pub custom_body : List ℕ → List ℕ → List ℕ
custom_body name rest = leb128 9 (length name) ++ (name ++ rest)

-- A custom section with another name than that of a specification.
abbrev pub HasOtherName : List ℕ → Type 0
HasOtherName body =
    (name : List ℕ) × (rest : List ℕ) × (body ≡ custom_body name rest)
    × (length name < 2 ^ 64)
    × (name ≢ contract_spec_section_name)

-- A section that is not a specification's: it is not a custom section, or one with another name.
abbrev pub IsQuiet : ℕ × List ℕ → Type 0
IsQuiet (section_type, body) = (length body < 2 ^ 64) × ((section_type ≢ 0) ⊎ HasOtherName body)

same_bytes-eq : (xs ys : List ℕ) → same_bytes xs ys ≡ true → xs ≡ ys
unfolding same_bytes
same_bytes-eq [] [] h = refl
same_bytes-eq [] (y ∷ ys) h = cc
same_bytes-eq (x ∷ xs) [] h = cc
same_bytes-eq (x ∷ xs) (y ∷ ys) h = ground (arith, same_bytes-eq xs ys)

spec_after-other :
    (name rest : List ℕ) → name ≢ contract_spec_section_name → spec_after name rest ≡ none
unfolding spec_after
spec_after-other name [] other = refl
spec_after-other name (b ∷ bs) other =
    elim (Bool-cases (same_bytes name contract_spec_section_name)) [
      | inl same ↦ absurd (other (same_bytes-eq name contract_spec_section_name same))
      | inr different ↦ rw different refl
    ]

named_after-other :
    (name rest : List ℕ)
    → name ≢ contract_spec_section_name
    → named_after (read_bytes (length name) (name ++ rest)) ≡ none
unfolding named_after
named_after-other [] [] other = refl
named_after-other [] (b ∷ bs) other = spec_after-other [] (b ∷ bs) other
named_after-other (x ∷ xs) rest other =
    rw (take-append xs rest, drop-append xs rest) (spec_after-other (x ∷ xs) rest other)

named_spec-other :
    (name rest : List ℕ)
    → name ≢ contract_spec_section_name
    → named_spec (number (length name) (name ++ rest)) ≡ none
unfolding named_spec
named_spec-other name rest other =
    let l = length-append name rest in
    let long : ltb (length (name ++ rest)) (length name) ≡ false = ground arith in
    rw long (named_after-other name rest other)

pub section_spec-quiet :
    (section_type : ℕ) (body : List ℕ)
    → (section_type ≢ 0) ⊎ HasOtherName body
    → section_spec section_type body ≡ none
unfolding section_spec
section_spec-quiet section_type body (inl plain) =
    let e : (section_type == 0) ≡ false = ground arith in rw e refl
section_spec-quiet section_type body (inr (name, rest, written, small, other)) =
    elim (Bool-cases (section_type == 0)) [
      | inl custom ↦ rw custom (
          ap (λ bytes. named_spec (read_uleb128 bytes)) written
          ∙ ap (λ n. named_spec n) (read_uleb128-leb128 (length name) (name ++ rest) small)
          ∙ named_spec-other name rest other)
      | inr plain ↦ rw plain refl
    ]
