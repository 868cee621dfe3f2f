-- ===== src/Prelude/Order.antt =====
-- The order of texts is a strict order, and its negation is transitive; their equality is
-- symmetric.
use Prim.Native.Char.{Char, code}
use Prim.Native.String.{String}
use Prim.Native.String.compare.{cons-cons, nil-cons, cons-nil}
use mathlib.Core.Path.{◌≡◌, refl, sym}
use mathlib.Core.Logic.{inl, inr}
use text.Mathlib.Text.{◌==◌ as str_eq}
use text.Mathlib.TextEquality.{eq_iff}
use mathlib.Core.Bool.{true, false, ◌&&◌, ◌||◌}
use native.Mathlib.Omega.{arith}
use stellarview_tui.Prelude.Tests.{ltb, ◌==◌, Bool-cases}
use stellarview_tui.Prelude.Text.{str_lt}

cons_lt_cons :
    (c d : Char) (s t : String)
    → str_lt (String.◌∷◌ c s) (String.◌∷◌ d t)
      ≡ (ltb (code c) (code d) || (code c == code d) && str_lt s t)
cons_lt_cons c d s t = rw cons-cons (ground arith)

nil_lt_cons : (d : Char) (t : String) → str_lt String.[] (String.◌∷◌ d t) ≡ true
nil_lt_cons d t = rw nil-cons

cons_lt_nil : (c : Char) (s : String) → str_lt (String.◌∷◌ c s) String.[] ≡ false
cons_lt_nil c s = rw cons-nil

pub str_lt_asymm : (s t : String) → str_lt s t ≡ true → str_lt t s ≡ false
str_lt_asymm String.[] String.[] h = refl
str_lt_asymm String.[] (String.◌∷◌ d t) h = cons_lt_nil d t
str_lt_asymm (String.◌∷◌ c s) String.[] h = let e = cons_lt_nil c s in cc
str_lt_asymm (String.◌∷◌ c s) (String.◌∷◌ d t) h =
    let h' = rw cons_lt_cons at h in rw cons_lt_cons (ground (arith, str_lt_asymm s t))

pub str_lt_through : (r s t : String) → str_lt s r ≡ false → str_lt t s ≡ false → str_lt t r ≡ false
str_lt_through String.[] s String.[] h k = refl
str_lt_through String.[] s (String.◌∷◌ e t) h k = cons_lt_nil e t
str_lt_through (String.◌∷◌ c r) String.[] t h k = let e = nil_lt_cons c r in cc
str_lt_through (String.◌∷◌ c r) (String.◌∷◌ d s) String.[] h k = let e = nil_lt_cons d s in cc
str_lt_through (String.◌∷◌ c r) (String.◌∷◌ d s) (String.◌∷◌ e t) h k =
    let h' = rw cons_lt_cons at h in
    let k' = rw cons_lt_cons at k in rw cons_lt_cons (ground (arith, str_lt_through r s t))

pub str_eq_sym : (s t : String) → str_eq s t ≡ false → str_eq t s ≡ false
str_eq_sym s t h = elim (Bool-cases (str_eq t s)) [
  | inl e ↦ let again = (eq_iff s t).1 (sym ((eq_iff t s).0 e)) in cc
  | inr e ↦ e
]
