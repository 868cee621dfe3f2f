-- ===== src/Sordecode/Wasm/Leb.antt =====
-- Numbers in LEB128 form are read back: `readULEB128` of sordecode/wasm.go.
use Prim.Native.Nat.{bit_and}
use stellarview_tui.Prelude.{
  ℕ, zero, suc, ◌+◌, ◌*◌, ◌/◌, ◌%◌, ◌^◌, ◌≤◌, ◌<◌, ◌≡◌, refl, ap, ◌∙◌, true, false, inl, inr, List,
  [], ◌∷◌, ◌++◌, ltb, leb, ◌==◌, if◌then◌else◌, Bool-cases, arith,
}
use native.Mathlib.Nat.{pow-le-pow_right, pow-suc, mul-le-mul_right}
use stellarview_tui.Sordecode.Wasm.{number, with_group, read_from, read_uleb128}
use stellarview_tui.Sordecode.Wasm.Bits.{low_bits, top_bit, bit_or_apart}

-- The groups of seven bits of a number below 128 ^ (k + 1), lowest first, the top bit set on all
-- but the last.
unfoldable pub leb128 : ℕ → ℕ → List ℕ
leb128 zero v = v ∷ []
leb128 (suc k) v =
    let more = leb128 k (v / 128) in if ltb v 128 then v ∷ [] else (v % 128 + 128) ∷ more

-- What a group adds.
with_group-add :
    (result b shift : ℕ)
    → b < 256
    → result < 2 ^ shift
    → b % 128 * 2 ^ shift < 2 ^ 64
    → with_group result b shift ≡ result + b % 128 * 2 ^ shift
with_group-add result b shift small low fits =
    let group : bit_and b 127 * 2 ^ shift % 2 ^ 64 ≡ b % 128 * 2 ^ shift =
      rw (low_bits b small) (omega arith) in
    rw group (bit_or_apart shift result (b % 128) low)

-- Products, for the step to the next group: `t` stands for 2 ^ shift.
regroup : (q r t : ℕ) → r * t + q * (t * 128) ≡ (q * 128 + r) * t
regroup q r t = grind arith

groups : (v t : ℕ) → v % 128 * t + v / 128 * (t * 128) ≡ v * t
groups v t =
    let whole : v / 128 * 128 + v % 128 ≡ v = omega arith in
    regroup (v / 128) (v % 128) t ∙ ap (λ x. x * t) whole

next_shift : (shift : ℕ) → 2 ^ (shift + 7) ≡ 2 ^ shift * 128
next_shift shift =
    let seven : shift + 7 ≡ suc (suc (suc (suc (suc (suc (suc shift)))))) = omega arith in
    rw seven (omega arith)

shift_bound : (v shift : ℕ) → 128 ≤ v → v * 2 ^ shift < 2 ^ 64 → shift + 7 < 64
shift_bound v shift large fits = elim (Bool-cases (leb 64 (shift + 7))) [
  | inr below ↦ ground arith
  | inl above ↦
      let power : 2 ^ 64 ≤ 2 ^ (shift + 7) =
        pow-le-pow_right (omega arith) {i = 64} {j = shift + 7} (ground arith) in
      let product : 128 * 2 ^ shift ≤ v * 2 ^ shift = mul-le-mul_right (2 ^ shift) large in
      absurd (omega (arith, next_shift shift))
]

low_group_le : (v t : ℕ) → v % 128 * t ≤ 127 * t
low_group_le v t = let small : v % 128 ≤ 127 = omega arith in mul-le-mul_right t small

-- A number that fits in the bits from `shift` on is read, with what comes after it.
read_from-leb128 :
    (k v result shift : ℕ) (rest : List ℕ)
    → v < 128 ^ suc k
    → v * 2 ^ shift < 2 ^ 64
    → result < 2 ^ shift
    → read_from (leb128 k v ++ rest) result shift ≡ number (result + v * 2 ^ shift) rest
unfolding read_from leb128
read_from-leb128 zero v result shift rest h fits low =
    let same : v % 128 ≡ v = omega arith in
    let last : (bit_and v 128 == 0) ≡ true = rw (top_bit v (omega arith)) (ground arith) in
    let value = with_group-add result v shift (omega arith) low (rw same fits) in
    rw (last, value, same) refl
read_from-leb128 (suc k) v result shift rest h fits low = elim (Bool-cases (ltb v 128)) [
  | inl small ↦
      let same : v % 128 ≡ v = ground arith in
      let last : (bit_and v 128 == 0) ≡ true = rw (top_bit v (ground arith)) (ground arith) in
      let value = with_group-add result v shift (ground arith) low (rw same fits) in
      rw (small, last, value, same) refl
  | inr large ↦
      let b = v % 128 + 128 in
      let group : b % 128 ≡ v % 128 = omega arith in
      let more : (bit_and b 128 == 0) ≡ false = rw (top_bit b (omega arith)) (ground arith) in
      let bounded : leb 64 (shift + 7) ≡ false =
        let s = shift_bound v shift (ground arith) fits in ground arith in
      let parts = groups v (2 ^ shift) in
      let low_part = low_group_le v (2 ^ shift) in
      let next = next_shift shift in
      let value = with_group-add result b shift (omega arith) low (rw group (omega arith)) in
      let later =
        read_from-leb128 k (v / 128) (result + v % 128 * 2 ^ shift) (shift + 7) rest
          (omega (arith, pow-suc 128 (suc k))) (rw next (omega arith)) (rw next (omega arith)) in
      let sum : result + v % 128 * 2 ^ shift + v / 128 * 2 ^ (shift + 7) ≡ result + v * 2 ^ shift =
        rw next (omega arith) in
      rw (large, more, bounded, value, group, later, sum) refl
]

-- Every uint64 in LEB128 form is read back by `readULEB128`, and the reader stands behind it.
pub read_uleb128-leb128 :
    (v : ℕ) (rest : List ℕ) → v < 2 ^ 64 → read_uleb128 (leb128 9 v ++ rest) ≡ number v rest
unfolding read_uleb128
read_uleb128-leb128 v rest h =
    read_from-leb128 9 v 0 0 rest (omega arith) (omega arith) (omega arith)
    ∙ ap (λ x. number x rest) (omega arith)
