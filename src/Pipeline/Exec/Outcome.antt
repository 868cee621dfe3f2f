-- ===== src/Pipeline/Exec/Outcome.antt =====
-- What an action leaves behind: `Good` of the value and the state when it returns one, `Bad` of
-- the state when it fails or does not finish.
use stellarview_tui.Prelude.{ℕ, String, List, ◌≡◌, ◌≢◌, refl}
use stellarview_tui.Pipeline.Exec.{
  Result, ok, err, unfinished, Exec, continue, wrap_result, wrapping, ◌>>=◌,
}

abbrev pub Outcome {ℓ κ} : {S A : Type ℓ} → (A → S → Type κ) → (S → Type κ) → Result A × S → Type κ
Outcome Good Bad (ok a, s) = Good a s
Outcome Good Bad (err e, s) = Bad s
Outcome Good Bad (unfinished, s) = Bad s

-- `m`, started in `s`, leaves `Good` or `Bad` behind.
pub record Leaves {ℓ κ} {S A : Type ℓ} (Good : A → S → Type κ) (Bad : S → Type κ) (m : Exec S A)
    (s : S) : Type (ℓ ⊔ κ) where
  pub at : Outcome Good Bad (m s)

wrapping_at {ℓ κ} :
    {S A : Type ℓ} (Good : A → S → Type κ) (Bad : S → Type κ) (format : String) (args : List ℕ)
    (r : Result A) (s : S)
    → Outcome Good Bad (r, s)
    → Outcome Good Bad (wrap_result format args r, s)
wrapping_at Good Bad format args (ok a) s h = h
wrapping_at Good Bad format args (err e) s h = h
wrapping_at Good Bad format args unfinished s h = h

module _ {ℓ κ} {S A : Type ℓ} {Good : A → S → Type κ} {Bad : S → Type κ} where
  pub Leaves-wrapping :
      (format : String) (args : List ℕ) (m : Exec S A) (s : S)
      → Leaves Good Bad m s
      → Leaves Good Bad (wrapping format args m) s
  Leaves-wrapping format args m s h = record {
    at = wrapping_at Good Bad format args (m s).0 (m s).1 h.at;
  }

continue_at {ℓ κ} :
    {S A B : Type ℓ} (Mid : A → S → Type κ) (Good : B → S → Type κ) (Bad : S → Type κ)
    (r : Result A) (f : A → Exec S B) (s : S)
    → Outcome Mid Bad (r, s)
    → ((a : A) (t : S) → Mid a t → Leaves Good Bad (f a) t)
    → Outcome Good Bad (continue r f s)
continue_at Mid Good Bad (ok a) f s h k = (k a s h).at
continue_at Mid Good Bad (err e) f s h k = h
continue_at Mid Good Bad unfinished f s h k = h

module _ {ℓ κ} {S A B : Type ℓ} {Mid : A → S → Type κ} {Good : B → S → Type κ}
    {Bad : S → Type κ} where
  pub Leaves-bind :
      (m : Exec S A) (f : A → Exec S B) (s : S)
      → Leaves Mid Bad m s
      → ((a : A) (t : S) → Mid a t → Leaves Good Bad (f a) t)
      → Leaves Good Bad (m >>= f) s
  unfolding ◌>>=◌
  Leaves-bind m f s h k = record { at = continue_at Mid Good Bad (m s).0 f (m s).1 h.at k }

pub ok-injective {ℓ} : {A : Type ℓ} {a b : A} → ok a ≡ ok b → a ≡ b
ok-injective e = cc

-- Reading an outcome off a result.
pub Outcome-good {ℓ κ} :
    {S A : Type ℓ} (Good : A → S → Type κ) (Bad : S → Type κ) (p : Result A × S) (a : A)
    → Outcome Good Bad p
    → p.0 ≡ ok a
    → Good a p.1
Outcome-good Good Bad (ok b, s) a h e = rw (← ok-injective e) h
Outcome-good Good Bad (err x, s) a h e = cc
Outcome-good Good Bad (unfinished, s) a h e = cc

pub Outcome-bad {ℓ κ} :
    {S A : Type ℓ} (Good : A → S → Type κ) (Bad : S → Type κ) (p : Result A × S)
    → Outcome Good Bad p
    → ((a : A) → p.0 ≢ ok a)
    → Bad p.1
Outcome-bad Good Bad (ok b, s) h e = absurd (e b refl)
Outcome-bad Good Bad (err x, s) h e = h
Outcome-bad Good Bad (unfinished, s) h e = h
