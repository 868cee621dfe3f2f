-- ===== src/Sordecode/Wasm/Sections.antt =====
-- The sections of a wasm module: `ExtractSpecFromWASM` of sordecode/wasm.go finds the
-- specification that a module holds, and it always ends.
use mathlib.Core.List.{append_assoc}
use stellarview_tui.Prelude.{
  ℕ, zero, suc, ◌+◌, ◌^◌, ◌≤◌, ◌<◌, ◌≡◌, ◌≢◌, refl, sym, ap, ◌∙◌, false, Option, none, some, inl,
  inr, List, [], ◌∷◌, ◌++◌, length, length-append, length-drop, drop, All, ltb, Bool-cases, arith,
}
use stellarview_tui.Sordecode.Wasm.{
  Number, number, end_of_input, overflow, with_group, read_from, read_uleb128, read_bytes,
  same_bytes, spec_after, named_after, named_spec, section_spec, after_data, after_size,
  contract_spec_section_name, wasm_magic, Extracted, spec, unfinished, continue_with, sections,
  extract_spec_from_wasm,
}
use stellarview_tui.Sordecode.Wasm.Quiet.{take-append, drop-append, IsQuiet, section_spec-quiet}
use stellarview_tui.Sordecode.Wasm.Leb.{leb128, read_uleb128-leb128}

read_bytes-append :
    (xs : List ℕ) (y : ℕ) (ys : List ℕ) → read_bytes (length xs) (xs ++ y ∷ ys) ≡ some (xs, y ∷ ys)
read_bytes-append [] y ys = refl
read_bytes-append (x ∷ xs) y ys = rw (take-append xs (y ∷ ys), drop-append xs (y ∷ ys)) refl

-- A section as it is written: its type, its size and its data.
abbrev pub section : ℕ → List ℕ → List ℕ
section section_type body = section_type ∷ leb128 9 (length body) ++ body

abbrev pub sections_of : List (ℕ × List ℕ) → List ℕ
sections_of [] = []
sections_of ((section_type, body) ∷ rest) = section section_type body ++ sections_of rest

-- A section is read, and what comes after it is left, if that is anything.
after_size-append :
    (section_type : ℕ) (loop : List ℕ → Extracted) (body : List ℕ) (next : ℕ) (rest : List ℕ)
    → after_size section_type loop (number (length body) (body ++ next ∷ rest))
      ≡ continue_with (section_spec section_type body) (loop (next ∷ rest))
unfolding after_size after_data
after_size-append section_type loop body next rest =
    let l = length-append body (next ∷ rest) in
    let long : ltb (length (body ++ next ∷ rest)) (length body) ≡ false = ground arith in
    rw (long, read_bytes-append body next rest) refl

sections-section :
    (fuel section_type : ℕ) (body : List ℕ) (next : ℕ) (rest : List ℕ)
    → length body < 2 ^ 64
    → sections (suc fuel) (section section_type body ++ next ∷ rest)
      ≡ continue_with (section_spec section_type body) (sections fuel (next ∷ rest))
unfolding sections
sections-section fuel section_type body next rest small =
    let size = read_uleb128-leb128 (length body) (body ++ next ∷ rest) small in
    rw (append_assoc (leb128 9 (length body)) body (next ∷ rest), size)
      (after_size-append section_type (λ left. sections fuel left) body next rest)

-- The custom section of a specification.
abbrev pub spec_body : List ℕ → List ℕ
spec_body found =
    leb128 9 (length contract_spec_section_name) ++ contract_spec_section_name ++ found

named_spec-contract :
    (b : ℕ) (bs : List ℕ)
    → named_spec (number 14 (contract_spec_section_name ++ b ∷ bs)) ≡ some (b ∷ bs)
unfolding named_spec named_after spec_after same_bytes
named_spec-contract b bs =
    let long : ltb (length (contract_spec_section_name ++ b ∷ bs)) 14 ≡ false = ground arith in
    rw long refl

section_spec-spec_body : (b : ℕ) (bs : List ℕ) → section_spec 0 (spec_body (b ∷ bs)) ≡ some (b ∷ bs)
unfolding section_spec leb128
section_spec-spec_body b bs =
    ap (λ n. named_spec n)
      (read_uleb128-leb128 14 (contract_spec_section_name ++ b ∷ bs) (omega arith))
    ∙ named_spec-contract b bs

length-section :
    (section_type : ℕ) (body rest : List ℕ)
    → length rest < length (section section_type body ++ rest)
length-section section_type body rest =
    let l = length-append (leb128 9 (length body) ++ body) rest in omega arith

nonempty : (xs : List ℕ) (y : ℕ) (ys : List ℕ) → (c : ℕ) × (cs : List ℕ) × (xs ++ y ∷ ys ≡ c ∷ cs)
nonempty [] y ys = (y, ys, refl)
nonempty (x ∷ xs) y ys = (x, xs ++ y ∷ ys, refl)

-- The loop passes over quiet sections, with fuel for every byte.
sections-quiet :
    (before : List (ℕ × List ℕ)) (fuel next : ℕ) (rest : List ℕ)
    → All IsQuiet before
    → length (sections_of before ++ next ∷ rest) < fuel
    → (left : ℕ) × (length (next ∷ rest) < left)
      × (sections fuel (sections_of before ++ next ∷ rest) ≡ sections left (next ∷ rest))
unfolding continue_with
sections-quiet [] fuel next rest h enough = (fuel, enough, refl)
sections-quiet ((section_type, body) ∷ before) zero next rest h enough = absurd (omega arith)
sections-quiet ((section_type, body) ∷ before) (suc fuel) next rest h enough =
    let (c, cs, later) = nonempty (sections_of before) next rest in
    let e = append_assoc (section section_type body) (sections_of before) (next ∷ rest) in
    let shorter = length-section section_type body (sections_of before ++ next ∷ rest) in
    let size = ap (λ l. length l) e in
    let fewer : length (sections_of before ++ next ∷ rest) < fuel = omega arith in
    let (left, deep, same) = sections-quiet before fuel next rest h.1 fewer in
    (
      left,
      deep,
      ap (λ l. sections (suc fuel) l) (e ∙ ap (λ l. section section_type body ++ l) later)
          ∙ sections-section fuel section_type body c cs h.0.0
          ∙ ap (λ o. continue_with o (sections fuel (c ∷ cs)))
              (section_spec-quiet section_type body h.0.1)
          ∙ ap (λ l. sections fuel l) (sym later)
          ∙ same,
    )

-- The section of the specification ends the loop, whatever comes after it.
after_size-spec :
    (loop : List ℕ → Extracted) (c : ℕ) (cs after : List ℕ) (found : List ℕ)
    → section_spec 0 (c ∷ cs) ≡ some found
    → after_size 0 loop (number (length (c ∷ cs)) (c ∷ cs ++ after)) ≡ spec found
unfolding after_size after_data continue_with
after_size-spec loop c cs after found h =
    let l = length-append (c ∷ cs) after in
    let long : ltb (length (c ∷ cs ++ after)) (length (c ∷ cs)) ≡ false = ground arith in
    rw (long, take-append cs after, drop-append cs after, h) refl

sections-spec :
    (left c : ℕ) (cs after found : List ℕ)
    → 0 < left
    → length (c ∷ cs) < 2 ^ 64
    → section_spec 0 (c ∷ cs) ≡ some found
    → sections left (section 0 (c ∷ cs) ++ after) ≡ spec found
unfolding sections
sections-spec zero c cs after found positive small h = absurd (omega arith)
sections-spec (suc left) c cs after found positive small h =
    let size = read_uleb128-leb128 (length (c ∷ cs)) (c ∷ cs ++ after) small in
    rw (append_assoc (leb128 9 (length (c ∷ cs))) (c ∷ cs) after, size)
      (after_size-spec (λ l. sections left l) c cs after found h)

after_header :
    (v0 v1 v2 v3 : ℕ) (body : List ℕ)
    → extract_spec_from_wasm (wasm_magic ++ v0 ∷ v1 ∷ v2 ∷ v3 ∷ body)
      ≡ sections (suc (length body)) body
unfolding extract_spec_from_wasm same_bytes
after_header v0 v1 v2 v3 body = ground arith

-- A module whose sections before the specification's are not custom or have other names gives back
-- exactly the bytes of the specification, whatever comes after its section. (The bytes are some, and
-- each size fits 64 bits.)
pub extract_spec_from_wasm-sections_of :
    (v0 v1 v2 v3 : ℕ) (before : List (ℕ × List ℕ)) (b : ℕ) (bs after : List ℕ)
    → All IsQuiet before
    → length (spec_body (b ∷ bs)) < 2 ^ 64
    → extract_spec_from_wasm (
        wasm_magic
        ++ v0 ∷ v1 ∷ v2 ∷ v3 ∷ (sections_of before ++ (section 0 (spec_body (b ∷ bs)) ++ after)))
      ≡ spec (b ∷ bs)
unfolding leb128
extract_spec_from_wasm-sections_of v0 v1 v2 v3 before b bs after h small =
    let last = section 0 (spec_body (b ∷ bs)) ++ after in
    let body = sections_of before ++ last in
    let (left, deep, passed) =
      sections-quiet before (suc (length body)) 0
        ((leb128 9 (length (spec_body (b ∷ bs))) ++ spec_body (b ∷ bs)) ++ after) h (omega arith) in
    after_header v0 v1 v2 v3 body
    ∙ passed
    ∙ sections-spec left 14 (contract_spec_section_name ++ b ∷ bs) after (b ∷ bs) (omega arith)
        small (section_spec-spec_body b bs)

-- A number takes a byte at least.
read_from-shorter :
    (reader : List ℕ) (result shift n : ℕ) (rest : List ℕ)
    → read_from reader result shift ≡ number n rest
    → length rest < length reader
unfolding read_from
read_from-shorter [] result shift n rest h = cc
read_from-shorter (b ∷ bs) result shift n rest h =
    ground (arith, read_from-shorter bs (with_group result b shift) (shift + 7) n rest)

continue_with-finishes :
    (found : Option (List ℕ)) (more : Extracted)
    → more ≢ unfinished
    → continue_with found more ≢ unfinished
unfolding continue_with
continue_with-finishes none more h = h
continue_with-finishes (some bytes) more h = λ e. cc

after_size-finishes :
    (section_type : ℕ) (loop : List ℕ → Extracted) (n : ℕ) (rest : List ℕ)
    → ((left : List ℕ) → length left ≤ length rest → loop left ≢ unfinished)
    → after_size section_type loop (number n rest) ≢ unfinished
unfolding after_size after_data
after_size-finishes section_type loop n [] ends = ground arith
after_size-finishes section_type loop n (c ∷ cs) ends =
    elim (Bool-cases (ltb (length (c ∷ cs)) n)) [
      | inl short ↦ rw short (λ e. cc)
      | inr long ↦ rw long (
          continue_with-finishes _ _
            (ends (drop n (c ∷ cs)) (omega (arith, length-drop n (c ∷ cs)))))
    ]

after_number-finishes :
    (section_type : ℕ) (loop : List ℕ → Extracted) (r : Number)
    → ((n : ℕ) (rest : List ℕ)
        → r ≡ number n rest
        → (left : List ℕ) → length left ≤ length rest
        → loop left ≢ unfinished)
    → after_size section_type loop r ≢ unfinished
unfolding after_size
after_number-finishes section_type loop end_of_input ends = λ e. cc
after_number-finishes section_type loop overflow ends = λ e. cc
after_number-finishes section_type loop (number n rest) ends =
    after_size-finishes section_type loop n rest (ends n rest refl)

sections-finishes :
    (fuel : ℕ) (reader : List ℕ) → length reader < fuel → sections fuel reader ≢ unfinished
unfolding sections read_uleb128
sections-finishes zero reader h = absurd (omega arith)
sections-finishes (suc fuel) [] h = λ e. cc
sections-finishes (suc fuel) (section_type ∷ reader) h =
    after_number-finishes section_type (λ left. sections fuel left) (read_uleb128 reader)
      (λ n rest e left shorter.
        let taken = read_from-shorter reader 0 0 n rest e in
        sections-finishes fuel left (omega arith))

-- `ExtractSpecFromWASM` ends on every input: its loop never runs out of fuel.
pub extract_spec_from_wasm-finishes :
    (wasm_bytes : List ℕ) → extract_spec_from_wasm wasm_bytes ≢ unfinished
unfolding extract_spec_from_wasm
extract_spec_from_wasm-finishes wasm_bytes =
    let ends =
      sections-finishes (suc (length (drop 8 wasm_bytes))) (drop 8 wasm_bytes) (omega arith) in
    ground arith
