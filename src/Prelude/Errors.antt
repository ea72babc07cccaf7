-- ===== src/Prelude/Errors.antt =====
-- Go's pairs of a value and an `error`. An error is the text that its `Error` method returns.
use Prim.Native.Nat.{ℕ}
use mathlib.Core.List.{List}

pub data Result {ℓ} (A : Type ℓ) : Type ℓ where
  ok : A → Result A
  err : List ℕ → Result A

module _ {ℓ} {A : Type ℓ} where
  abbrev pub IsOk : Result A → Type 0
  IsOk (ok _) = Unit
  IsOk (err _) = ⊥

  abbrev pub IsErr : Result A → Type 0
  IsErr (ok _) = ⊥
  IsErr (err _) = Unit

  -- `fmt.Errorf("… - %s", err.Error())`
  abbrev pub map_err : (List ℕ → List ℕ) → Result A → Result A
  map_err f (ok a) = ok a
  map_err f (err e) = err (f e)

module _ {ℓ κ} {A : Type ℓ} {B : Type κ} where
  abbrev pub and_then : Result A → (A → Result B) → Result B
  and_then (ok a) f = f a
  and_then (err e) f = err e
