-- ===== src/Pipeline/Exec/Inversion.antt =====
-- Taking a chain of actions apart: from a result of the whole to the results of its parts.
use stellarview_tui.Prelude.{ℕ, String, List, ◌≡◌, ◌≢◌, refl, ◌⊎◌, inl, inr}
use stellarview_tui.Pipeline.Exec.{
  Result, ok, err, unfinished, Exec, continue, wrap_result, wrapping, ◌>>=◌,
}

module _ {ℓ} {A : Type ℓ} where
  wrap_result-eq-ok :
      (format : String) (args : List ℕ) (r : Result A) (a : A)
      → wrap_result format args r ≡ ok a
      → r ≡ ok a
  wrap_result-eq-ok format args (ok b) a h = h
  wrap_result-eq-ok format args (err e) a h = cc
  wrap_result-eq-ok format args unfinished a h = cc

  wrap_result-finishes :
      (format : String) (args : List ℕ) (r : Result A)
      → r ≢ unfinished
      → wrap_result format args r ≢ unfinished
  wrap_result-finishes format args (ok b) h = h
  wrap_result-finishes format args (err e) h = λ k. cc
  wrap_result-finishes format args unfinished h = h

module _ {ℓ} {S A : Type ℓ} where
  pub wrapping-eq-ok :
      (format : String) (args : List ℕ) (m : Exec S A) (s : S) (a : A)
      → (wrapping format args m s).0 ≡ ok a
      → (m s).0 ≡ ok a
  wrapping-eq-ok format args m s a h = wrap_result-eq-ok format args (m s).0 a h

  pub wrapping-finishes :
      (format : String) (args : List ℕ) (m : Exec S A) (s : S)
      → (m s).0 ≢ unfinished
      → (wrapping format args m s).0 ≢ unfinished
  wrapping-finishes format args m s h = wrap_result-finishes format args (m s).0 h

module _ {ℓ} {S A B : Type ℓ} where
  continue-eq-ok :
      (r : Result A) (f : A → Exec S B) (t : S) (b : B)
      → (continue r f t).0 ≡ ok b
      → (a : A) × (r ≡ ok a) × (continue r f t ≡ f a t) × ((f a t).0 ≡ ok b)
  continue-eq-ok (ok a) f t b h = (a, refl, refl, h)
  continue-eq-ok (err e) f t b h = cc
  continue-eq-ok unfinished f t b h = cc

  -- A chain that returns a value ran its first action to a value, and then the rest.
  pub bind-eq-ok :
      (m : Exec S A) (f : A → Exec S B) (s : S) (b : B)
      → ((m >>= f) s).0 ≡ ok b
      → (a : A) × ((m s).0 ≡ ok a) × ((m >>= f) s ≡ f a (m s).1) × ((f a (m s).1).0 ≡ ok b)
  unfolding ◌>>=◌
  bind-eq-ok m f s b h = continue-eq-ok (m s).0 f (m s).1 b h

  continue-finishes :
      (r : Result A) (f : A → Exec S B) (t : S)
      → r ≢ unfinished
      → ((a : A) → r ≡ ok a → (f a t).0 ≢ unfinished)
      → (continue r f t).0 ≢ unfinished
  continue-finishes (ok a) f t h k = k a refl
  continue-finishes (err e) f t h k = λ e. cc
  continue-finishes unfinished f t h k = λ _. h refl

  pub bind-finishes :
      (m : Exec S A) (f : A → Exec S B) (s : S)
      → (m s).0 ≢ unfinished
      → ((a : A) → (m s).0 ≡ ok a → (f a (m s).1).0 ≢ unfinished)
      → ((m >>= f) s).0 ≢ unfinished
  unfolding ◌>>=◌
  bind-finishes m f s h k = continue-finishes (m s).0 f (m s).1 h k

  continue_of_ok :
      (r : Result A) (f : A → Exec S B) (t : S) (a : A) → r ≡ ok a → continue r f t ≡ f a t
  continue_of_ok r f t a e = rw e

  -- A chain whose first action returns a value goes on with it.
  pub bind_of_ok :
      (m : Exec S A) (f : A → Exec S B) (s : S) (a : A) → (m s).0 ≡ ok a → (m >>= f) s ≡ f a (m s).1
  unfolding ◌>>=◌
  bind_of_ok m f s a e = continue_of_ok (m s).0 f (m s).1 a e

  continue_of_failure :
      (r : Result A) (f : A → Exec S B) (t : S) → ((a : A) → r ≢ ok a) → (continue r f t).1 ≡ t
  continue_of_failure (ok a) f t h = absurd (h a refl)
  continue_of_failure (err e) f t h = refl
  continue_of_failure unfinished f t h = refl

  -- A chain whose first action fails stops in the state that the action left.
  pub bind_of_failure :
      (m : Exec S A) (f : A → Exec S B) (s : S)
      → ((a : A) → (m s).0 ≢ ok a)
      → ((m >>= f) s).1 ≡ (m s).1
  unfolding ◌>>=◌
  bind_of_failure m f s h = continue_of_failure (m s).0 f (m s).1 h

module _ {ℓ κ} {S A B : Type ℓ} (P : S → Type κ) where
  continue-keeps :
      (r : Result A) (f : A → Exec S B) (t : S)
      → P t
      → ((a : A) (t : S) → P t → P (f a t).1)
      → P (continue r f t).1
  continue-keeps (ok a) f t h k = k a t h
  continue-keeps (err e) f t h k = h
  continue-keeps unfinished f t h k = h

  -- A chain keeps what its parts keep, however it ends.
  pub bind-keeps :
      (m : Exec S A) (f : A → Exec S B) (s : S)
      → P (m s).1
      → ((a : A) (t : S) → P t → P (f a t).1)
      → P ((m >>= f) s).1
  unfolding ◌>>=◌
  bind-keeps m f s h k = continue-keeps (m s).0 f (m s).1 h k

pub Result-cases {ℓ} : {A : Type ℓ} (r : Result A) → ((a : A) × (r ≡ ok a)) ⊎ ((a : A) → r ≢ ok a)
Result-cases (ok a) = inl (a, refl)
Result-cases (err e) = inr (λ a h. cc)
Result-cases unfinished = inr (λ a h. cc)
