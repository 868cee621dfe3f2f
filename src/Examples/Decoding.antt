-- ===== src/Examples/Decoding.antt =====
-- The theorems on the decoder of contracts at concrete bytes.
use stellarview_tui.Prelude.{
  ℕ, ◌-◌, ◌*◌, ◌≡◌, ◌≢◌, inl, inr, refl, ap, true, false, All, List, [], ◌∷◌, ◌++◌, arith,
}
use stellarview_tui.Prelude.Int.{pos, negsuc, ◌≤ℤ◌, ltb_ℤ}
use stellarview_tui.Sordecode.Int.{
  Int128Parts, Int256Parts, word, extended, int128_parts_to_big_int, int256_parts_to_big_int,
  int256-extended, int256-range,
}
use stellarview_tui.Sordecode.Wasm.{
  number, read_uleb128, same_bytes, contract_spec_section_name, wasm_magic, spec, unfinished,
  extract_spec_from_wasm,
}
use stellarview_tui.Sordecode.Wasm.Leb.{leb128, read_uleb128-leb128}
use stellarview_tui.Sordecode.Wasm.Quiet.{custom_body, IsQuiet}
use stellarview_tui.Sordecode.Wasm.Sections.{
  section, sections_of, spec_body, extract_spec_from_wasm-sections_of,
  extract_spec_from_wasm-finishes,
}

abbrev minus_five : Int128Parts
minus_five = record { hi = negsuc 0; lo = word - 5 }

int256-extended_example :
    int256_parts_to_big_int (extended minus_five) ≡ int128_parts_to_big_int minus_five
int256-extended_example = int256-extended minus_five (ground arith) (ground arith)

minus_five_decoded : int128_parts_to_big_int minus_five ≡ negsuc 4
unfolding int128_parts_to_big_int
minus_five_decoded = refl

abbrev wide : Int256Parts
wide = extended minus_five

int256-range_example :
    (negsuc (word * word * word * 9223372036854775808 - 1) ≤ℤ int256_parts_to_big_int wide)
    × (int256_parts_to_big_int wide ≤ℤ pos (word * word * word * 9223372036854775808 - 1))
    × (ltb_ℤ (int256_parts_to_big_int wide) (pos 0) ≡ ltb_ℤ wide.hi_hi (pos 0))
int256-range_example = int256-range wide (ground arith) (ground arith) (ground arith) (ground arith)

read_uleb128-leb128_example : read_uleb128 (leb128 9 300 ++ 7 ∷ []) ≡ number 300 (7 ∷ [])
read_uleb128-leb128_example = read_uleb128-leb128 300 (7 ∷ []) (omega arith)

written_300 : leb128 9 300 ≡ 172 ∷ 2 ∷ []
unfolding leb128
written_300 = refl

-- "contractmetav0"
abbrev meta_name : List ℕ
meta_name =
    b'c' ∷ b'o' ∷ b'n' ∷ b't' ∷ b'r' ∷ b'a' ∷ b'c' ∷ b't' ∷ b'm' ∷ b'e' ∷ b't' ∷ b'a' ∷ b'v' ∷ b'0'
    ∷ []

meta_apart : meta_name ≢ contract_spec_section_name
unfolding same_bytes
meta_apart e =
    let k : false ≡ true = ap (λ name. same_bytes name contract_spec_section_name) e in cc

abbrev before_spec : List (ℕ × List ℕ)
before_spec = (1, 96 ∷ []) ∷ (0, custom_body meta_name (9 ∷ [])) ∷ []

before_spec-IsQuiet : All IsQuiet before_spec
unfolding leb128
before_spec-IsQuiet = (
  (omega arith, inl (λ e. omega arith)),
  ((omega arith, inr (meta_name, 9 ∷ [], refl, omega arith, meta_apart)), tt),
)

-- A module with a type section and one of the contract's metadata, then the specification, then bytes that are no section.
extract_spec_from_wasm-sections_of_example :
    extract_spec_from_wasm (
      wasm_magic
      ++ 1
        ∷ 0
        ∷ 0
        ∷ 0
        ∷ (sections_of before_spec ++ (section 0 (spec_body (4 ∷ 5 ∷ [])) ++ (0 ∷ 255 ∷ []))))
    ≡ spec (4 ∷ 5 ∷ [])
unfolding leb128
extract_spec_from_wasm-sections_of_example =
    extract_spec_from_wasm-sections_of 1 0 0 0 before_spec 4 (5 ∷ []) (0 ∷ 255 ∷ [])
      before_spec-IsQuiet (omega arith)

extract_spec_from_wasm-finishes_example : extract_spec_from_wasm (wasm_magic ++ []) ≢ unfinished
extract_spec_from_wasm-finishes_example = extract_spec_from_wasm-finishes (wasm_magic ++ [])
