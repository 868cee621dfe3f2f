-- ===== src/Sordecode/Wasm/Bits.antt =====
-- Bit operations on a byte, and `|` on numbers that share no bits.
use Prim.Native.Nat.{
  ℕ, zero, suc, ◌+◌, ◌*◌, ◌/◌, ◌%◌, ◌^◌, ◌≤◌, ◌<◌, max, bit_and, bit_or, digits, bit_or-bitwise,
}
use stellarview_tui.Prelude.{◌≡◌, refl, sym, ◌∙◌, ap, Bool, true, ◌&&◌, ◌==◌, ==_iff, arith}
use native.Mathlib.Nat.{mul_assoc}

-- Over the bytes, by evaluation.
all_below : ℕ → (ℕ → Bool) → Bool
all_below zero p = true
all_below (suc n) p = p n && all_below n p

all_below-true : (n : ℕ) (p : ℕ → Bool) (x : ℕ) → all_below n p ≡ true → x < n → p x ≡ true
unfolding all_below
all_below-true zero p x h lt = absurd (omega arith)
all_below-true (suc n) p x h lt = ground (arith, all_below-true n p x)

low_table : all_below 256 (λ b. bit_and b 127 == b % 128) ≡ true
unfolding all_below
low_table = refl

pub low_bits : (b : ℕ) → b < 256 → bit_and b 127 ≡ b % 128
low_bits b h = (==_iff _ _).0 (all_below-true 256 _ b low_table h)

top_table : all_below 256 (λ b. bit_and b 128 == (b / 128) * 128) ≡ true
unfolding all_below
top_table = refl

pub top_bit : (b : ℕ) → b < 256 → bit_and b 128 ≡ (b / 128) * 128
top_bit b h = (==_iff _ _).0 (all_below-true 256 _ b top_table h)

-- The law for the lowest digit of `|`.
abbrev or_digits : ℕ → ℕ → ℕ → ℕ
or_digits n a b = digits (λ b. b) max n a b

or_digits-fuel : (n m a b : ℕ) → a ≤ n → a ≤ m → or_digits n a b ≡ or_digits m a b
or_digits-fuel zero zero a b p q = refl
or_digits-fuel zero (suc m) zero b p q = refl
or_digits-fuel zero (suc m) (suc a) b p q = absurd (omega arith)
or_digits-fuel (suc n) zero zero b p q = refl
or_digits-fuel (suc n) zero (suc a) b p q = absurd (omega arith)
or_digits-fuel (suc n) (suc m) zero b p q = refl
or_digits-fuel (suc n) (suc m) (suc a) b p q =
    omega (arith, or_digits-fuel n m (suc a / 2) (b / 2) (omega arith) (omega arith))

zero-bit_or : (b : ℕ) → bit_or 0 b ≡ b
zero-bit_or b = bit_or-bitwise 0 b

bit_or_step : (a b : ℕ) → bit_or a b ≡ bit_or (a / 2) (b / 2) * 2 + max (a % 2) (b % 2)
bit_or_step zero b = omega (arith, zero-bit_or b, zero-bit_or (b / 2))
bit_or_step (suc a) b = omega (
  arith,
  bit_or-bitwise (suc a) b,
  bit_or-bitwise (suc a / 2) (b / 2),
  or_digits-fuel a (suc a / 2) (suc a / 2) (b / 2) (omega arith) (omega arith),
)

-- Below 2^k and a multiple of 2^k: the bits are apart, and `|` adds.
pub bit_or_apart : (k a c : ℕ) → a < 2 ^ k → bit_or a (c * 2 ^ k) ≡ a + c * 2 ^ k
bit_or_apart zero a c h =
    let nothing : a ≡ 0 = omega arith in rw nothing (zero-bit_or (c * 2 ^ 0) ∙ omega arith)
bit_or_apart (suc k) a c h =
    let power : 2 ^ suc k ≡ 2 ^ k * 2 = omega arith in
    let double : c * 2 ^ suc k ≡ c * 2 ^ k * 2 = rw power (sym (mul_assoc c (2 ^ k) 2)) in
    let small : a < 2 ^ k * 2 = omega arith in
    let rest = bit_or_apart k (a / 2) c (omega arith) in
    let half : c * 2 ^ k * 2 / 2 ≡ c * 2 ^ k = omega arith in
    rw double (bit_or_step a (c * 2 ^ k * 2) ∙ omega (arith, ap (λ x. bit_or (a / 2) x) half, rest))
