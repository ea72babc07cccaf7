-- ===== src/Prelude/Effects.antt =====
-- Go code that changes a world and may return an error: it maps a world to a result and the world
-- that it leaves.
use cyberdaemon.Prelude.Errors.{Result, ok, err}
use Prim.Native.Nat.{ℕ}
use mathlib.Core.List.{List}
use mathlib.Core.Option.{Option, none, some}

abbrev pub Effect : Type 0 → Type 0 → Type 0
Effect W A = W → Result A × W

module _ {W A : Type 0} where
  abbrev pub pure : A → Effect W A
  pure a w = (ok a, w)

  abbrev pub raise : List ℕ → Effect W A
  raise e w = (err e, w)

  -- The result of a call with no effect.
  abbrev pub lift : Result A → Effect W A
  lift r w = (r, w)

  -- A call whose error the caller looks at.
  abbrev pub try : Effect W A → Effect W (Result A)
  try m w = (ok (m w).0, (m w).1)

  -- A call whose error is not looked at.
  abbrev pub ignore_error : Effect W A → Effect W (Unit {0})
  ignore_error m w = (ok tt, (m w).1)

-- `if err != nil { return err }`
abbrev pub check : {W : Type 0} → Option (List ℕ) → Effect W (Unit {0})
check none w = (ok tt, w)
check (some e) w = (err e, w)

module _ {W A B : Type 0} where
  abbrev pub continue : Result A → (A → Effect W B) → Effect W B
  continue (ok a) f w = f a w
  continue (err e) f w = (err e, w)

infixl 10 ◌>>=◌ ◌>>◌
abbrev pub ◌>>=◌ : {W A B : Type 0} → Effect W A → (A → Effect W B) → Effect W B
◌>>=◌ m f w = let (r, w') = m w in continue r f w'

abbrev pub ◌>>◌ : {W B : Type 0} → Effect W (Unit {0}) → Effect W B → Effect W B
m >> n = m >>= λ _. n
