-- ===== src/Pipeline/Exec.antt =====
-- Go functions that return an error and change the world: an action takes a state and gives back
-- its result and the new state, whether it failed or not. A loop that has used up its fuel gives
-- `unfinished`.
pub mod Outcome
pub mod Inversion
use stellarview_tui.Prelude.{ℕ, String, ◌≡◌, refl, List, Option, none, some}

pub data Failure : Type 0 where
  -- an error from outside the pipeline
  reported : String → Failure
  -- `fmt.Errorf` with `%w`: the format and its ledger numbers, around an inner error
  wrapped : String → List ℕ → Failure → Failure
  -- `fmt.Errorf` without an inner error
  stated : String → List ℕ → Failure

pub data Result {ℓ} (A : Type ℓ) : Type ℓ where
  ok : A → Result A
  err : Failure → Result A
  unfinished : Result A

abbrev pub Exec {ℓ} : Type ℓ → Type ℓ → Type ℓ
Exec S A = S → Result A × S

module _ {ℓ} {A : Type ℓ} where
  abbrev pub wrap_result : String → List ℕ → Result A → Result A
  wrap_result format args (ok a) = ok a
  wrap_result format args (err e) = err (wrapped format args e)
  wrap_result format args unfinished = unfinished

module _ {ℓ} {S A : Type ℓ} where
  abbrev pub pure : A → Exec S A
  pure a s = (ok a, s)

  abbrev pub fail : Failure → Exec S A
  fail e s = (err e, s)

  abbrev pub give_up : Exec S A
  give_up s = (unfinished, s)

  -- `if err != nil { return fmt.Errorf(format, args, err) }`
  abbrev pub wrapping : String → List ℕ → Exec S A → Exec S A
  wrapping format args m s = let (r, s') = m s in (wrap_result format args r, s')

module _ {ℓ} {S A B : Type ℓ} where
  abbrev pub continue : Result A → (A → Exec S B) → Exec S B
  continue (ok a) f s = f a s
  continue (err e) f s = (err e, s)
  continue unfinished f s = (unfinished, s)

  infixl 10 ◌>>=◌ ◌>>◌
  unfoldable pub ◌>>=◌ : Exec S A → (A → Exec S B) → Exec S B
  ◌>>=◌ m f s = let (r, s') = m s in continue r f s'

  abbrev pub ◌>>◌ : Exec S A → Exec S B → Exec S B
  m >> n = m >>= λ _. n
