-- ===== src/Sordecode/Int.antt =====
-- Wide integers from their words: sordecode/int.go. Big integers are those of ℤ.
use stellarview_tui.Prelude.{ℕ, ◌+◌, ◌-◌, ◌*◌, ◌%◌, ◌<◌, ◌≡◌, List, [], ◌∷◌, if◌then◌else◌, arith}
use stellarview_tui.Prelude.Int.{ℤ, pos, negsuc, pos_part, neg_part, sub_ℕ, ◌+ℤ◌, ◌-ℤ◌, ◌≤ℤ◌, ltb_ℤ}

-- xdr.Int128Parts and its like: an xdr.Int64 is an integer, an xdr.Uint64 a number below 2^64.
pub record Int128Parts : Type 0 where
  pub hi : ℤ
  pub lo : ℕ

pub record UInt128Parts : Type 0 where
  pub hi : ℕ
  pub lo : ℕ

pub record Int256Parts : Type 0 where
  pub hi_hi : ℤ
  pub hi_lo : ℕ
  pub lo_hi : ℕ
  pub lo_lo : ℕ

pub record UInt256Parts : Type 0 where
  pub hi_hi : ℕ
  pub hi_lo : ℕ
  pub lo_hi : ℕ
  pub lo_lo : ℕ

abbrev pub word : ℕ
word = 18446744073709551616

-- `uint64(x)` of an int64
abbrev pub to_uint64 : ℤ → ℕ
to_uint64 (pos n) = n % word
to_uint64 (negsuc n) = word - 1 - n % word

-- `x.Lsh(x, 64)`
abbrev pub shift_word : ℤ → ℤ
shift_word x = sub_ℕ (pos_part x * word) (neg_part x * word)

-- `int128PartsToBigInt`
unfoldable pub int128_parts_to_big_int : Int128Parts → ℤ
unfolding ◌+ℤ◌
int128_parts_to_big_int parts = shift_word parts.hi +ℤ pos parts.lo

-- `uint128PartsToBigInt`
unfoldable pub uint128_parts_to_big_int : UInt128Parts → ℤ
uint128_parts_to_big_int parts = pos (parts.hi * word + parts.lo)

-- The loop of `uint256PartsToBigInt`.
abbrev pub add_words : ℕ → List ℕ → ℕ
add_words value [] = value
add_words value (w ∷ ws) = add_words (value * word + w) ws

-- `uint256PartsToBigInt`
unfoldable pub uint256_parts_to_big_int : UInt256Parts → ℤ
uint256_parts_to_big_int parts =
    pos (add_words 0 (parts.hi_hi ∷ parts.hi_lo ∷ parts.lo_hi ∷ parts.lo_lo ∷ []))

-- `int256PartsToBigInt`
unfoldable pub int256_parts_to_big_int : Int256Parts → ℤ
unfolding ◌-ℤ◌ uint256_parts_to_big_int
int256_parts_to_big_int parts =
    let unsigned = uint256_parts_to_big_int (record {
      hi_hi = to_uint64 parts.hi_hi;
      hi_lo = parts.hi_lo;
      lo_hi = parts.lo_hi;
      lo_lo = parts.lo_lo;
    }) in
    if ltb_ℤ parts.hi_hi (pos 0) then unsigned -ℤ pos (word * word * (word * word)) else unsigned

-- An int64.
abbrev pub IsInt64 : ℤ → Type 0
IsInt64 x = (negsuc 9223372036854775807 ≤ℤ x) × (x ≤ℤ pos 9223372036854775807)

abbrev pub IsUint64 : ℕ → Type 0
IsUint64 n = n < word

-- The 256 bits of a signed number of 128 bits.
abbrev pub extended : Int128Parts → Int256Parts
extended parts = record {
  hi_hi = if ltb_ℤ parts.hi (pos 0) then negsuc 0 else pos 0;
  hi_lo = if ltb_ℤ parts.hi (pos 0) then word - 1 else 0;
  lo_hi = to_uint64 parts.hi;
  lo_lo = parts.lo;
}

-- A number of 128 bits, extended by its sign to 256 bits, stands for the same integer.
pub int256-extended :
    (parts : Int128Parts)
    → IsInt64 parts.hi
    → IsUint64 parts.lo
    → int256_parts_to_big_int (extended parts) ≡ int128_parts_to_big_int parts
unfolding int256_parts_to_big_int int128_parts_to_big_int uint256_parts_to_big_int ◌-ℤ◌ ◌+ℤ◌
int256-extended parts hi lo = ground arith

-- The integer of four words (the first an int64) is one of 256 bits in two's complement: it has the
-- sign of the first word, and it is the integer of the unsigned words, less 2^256 if negative.
pub int256-range :
    (parts : Int256Parts)
    → IsInt64 parts.hi_hi
    → IsUint64 parts.hi_lo
    → IsUint64 parts.lo_hi
    → IsUint64 parts.lo_lo
    → (negsuc (word * word * word * 9223372036854775808 - 1) ≤ℤ int256_parts_to_big_int parts)
      × (int256_parts_to_big_int parts ≤ℤ pos (word * word * word * 9223372036854775808 - 1))
      × (ltb_ℤ (int256_parts_to_big_int parts) (pos 0) ≡ ltb_ℤ parts.hi_hi (pos 0))
unfolding int256_parts_to_big_int uint256_parts_to_big_int ◌-ℤ◌
int256-range parts a b c d = ground arith

-- Different words stand for different integers.
pub int128-injective :
    (p q : Int128Parts)
    → IsUint64 p.lo
    → IsUint64 q.lo
    → int128_parts_to_big_int p ≡ int128_parts_to_big_int q
    → (p.hi ≡ q.hi) × (p.lo ≡ q.lo)
unfolding int128_parts_to_big_int ◌+ℤ◌
int128-injective p q a b h = ground arith
