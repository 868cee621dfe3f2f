-- ===== src/Sordecode/Wasm.antt =====
-- The contract specification in a wasm module: sordecode/wasm.go. A byte slice is a list of
-- numbers, and a reader is the bytes that it has not read.
pub mod Bits
pub mod Leb
pub mod Quiet
pub mod Sections
use Prim.Native.Nat.{bit_and, bit_or}
use stellarview_tui.Prelude.{
  ℕ, zero, suc, ◌+◌, ◌*◌, ◌%◌, ◌^◌, Bool, true, false, ◌||◌, Option, none, some, List, [], ◌∷◌, ltb,
  leb, ◌==◌, length, take, drop, if◌then◌else◌,
}

-- `readULEB128`: the number with the rest of the reader, the reader's end, or the error on a
-- number that goes on past 64 bits.
pub data Number : Type 0 where
  number : ℕ → List ℕ → Number
  end_of_input : Number
  overflow : Number

-- `result |= uint64(b&0x7F) << shift`
abbrev pub with_group : ℕ → ℕ → ℕ → ℕ
with_group result b shift = bit_or result (bit_and b 127 * 2 ^ shift % 2 ^ 64)

unfoldable pub read_from : List ℕ → ℕ → ℕ → Number
read_from [] result shift = end_of_input
read_from (b ∷ bs) result shift =
    let value = with_group result b shift in
    let more = read_from bs value (shift + 7) in
    if bit_and b 128 == 0 then number value bs else if leb 64 (shift + 7) then overflow else more

unfoldable pub read_uleb128 : List ℕ → Number
read_uleb128 reader = read_from reader 0 0

-- `reader.Read` into a buffer of `n` bytes that are there: none at the end of the reader, even if
-- the buffer is empty.
abbrev pub read_bytes : ℕ → List ℕ → Option (List ℕ × List ℕ)
read_bytes n [] = none
read_bytes n (b ∷ bs) = some (take n (b ∷ bs), drop n (b ∷ bs))

unfoldable pub same_bytes : List ℕ → List ℕ → Bool
same_bytes [] [] = true
same_bytes [] (c ∷ cs) = false
same_bytes (b ∷ bs) [] = false
same_bytes (b ∷ bs) (c ∷ cs) = if b == c then same_bytes bs cs else false

-- "contractspecv0"
abbrev pub contract_spec_section_name : List ℕ
contract_spec_section_name =
    b'c' ∷ b'o' ∷ b'n' ∷ b't' ∷ b'r' ∷ b'a' ∷ b'c' ∷ b't' ∷ b's' ∷ b'p' ∷ b'e' ∷ b'c' ∷ b'v' ∷ b'0'
    ∷ []

-- "\x00asm"
abbrev pub wasm_magic : List ℕ
wasm_magic = 0 ∷ b'a' ∷ b's' ∷ b'm' ∷ []

-- The specification after the name of a section: its last read fails when nothing is left.
unfoldable pub spec_after : List ℕ → List ℕ → Option (List ℕ)
spec_after name [] = none
spec_after name (b ∷ bs) =
    if same_bytes name contract_spec_section_name then some (b ∷ bs) else none

unfoldable pub named_after : Option (List ℕ × List ℕ) → Option (List ℕ)
named_after none = none
named_after (some (name, rest)) = spec_after name rest

unfoldable pub named_spec : Number → Option (List ℕ)
named_spec end_of_input = none
named_spec overflow = none
named_spec (number name_len reader) =
    if ltb (length reader) name_len then none else named_after (read_bytes name_len reader)

-- What a section gives: nothing (`continue`) unless it is the custom section of that name.
unfoldable pub section_spec : ℕ → List ℕ → Option (List ℕ)
section_spec section_type section_data =
    if section_type == 0 then named_spec (read_uleb128 section_data) else none

-- `unfinished` is no result of the code: the loop ran out of fuel.
pub data Extracted : Type 0 where
  spec : List ℕ → Extracted
  invalid_magic : Extracted
  not_found : Extracted
  unfinished : Extracted

unfoldable pub continue_with : Option (List ℕ) → Extracted → Extracted
continue_with none rest = rest
continue_with (some found) rest = spec found

-- The body of the loop over the sections, with the loop on what comes after a section; every
-- `break` ends in "section not found".
module _ (section_type : ℕ) (loop : List ℕ → Extracted) where
  unfoldable pub after_data : Option (List ℕ × List ℕ) → Extracted
  after_data none = not_found
  after_data (some (section_data, left)) =
      continue_with (section_spec section_type section_data) (loop left)

  unfoldable pub after_size : Number → Extracted
  after_size end_of_input = not_found
  after_size overflow = not_found
  after_size (number section_size rest) =
      if ltb (length rest) section_size
      then not_found
      else after_data (read_bytes section_size rest)

unfoldable pub sections : ℕ → List ℕ → Extracted
sections zero reader = unfinished
sections (suc fuel) [] = not_found
sections (suc fuel) (section_type ∷ reader) =
    after_size section_type (λ left. sections fuel left) (read_uleb128 reader)

-- `ExtractSpecFromWASM`
unfoldable pub extract_spec_from_wasm : List ℕ → Extracted
extract_spec_from_wasm wasm_bytes =
    if ltb (length wasm_bytes) 8
    then invalid_magic
    else if same_bytes (take 4 wasm_bytes) wasm_magic
    then sections (suc (length (drop 8 wasm_bytes))) (drop 8 wasm_bytes)
    else invalid_magic
