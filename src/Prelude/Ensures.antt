-- ===== src/Prelude/Ensures.antt =====
-- A property of the value that an effect returns where it returns one.
use cyberdaemon.Prelude.Errors.{Result, ok, err}
use cyberdaemon.Prelude.Effects.{Effect, continue, ◌>>=◌}
use mathlib.Core.Path.{◌≡◌, subst}

module _ {A : Type 0} where
  abbrev pub WhenOk : (A → Type 0) → Result A → Type 0
  WhenOk P (ok a) = P a
  WhenOk P (err e) = Unit

  pub WhenOk-ok : (P : A → Type 0) (r : Result A) (a : A) → WhenOk P r → r ≡ ok a → P a
  WhenOk-ok P (ok b) a p h = let e : b ≡ a = cc in subst P e p
  WhenOk-ok P (err e) a p h = cc

  pub WhenOk-Unit : (r : Result A) → WhenOk (λ _. Unit {0}) r
  WhenOk-Unit (ok a) = tt
  WhenOk-Unit (err e) = tt

abbrev pub Ensures : {W A : Type 0} → Effect W A → (A → Type 0) → Type 0
Ensures {W} m P = (w : W) → WhenOk P (m w).0

module _ {W A B : Type 0} (P : A → Type 0) (Q : B → Type 0) where
  continue-WhenOk :
      (r : Result A) (f : A → Effect W B) (w : W)
      → WhenOk P r
      → ((a : A) → P a → Ensures (f a) Q)
      → WhenOk Q (continue r f w).0
  continue-WhenOk (ok a) f w p h = h a p w
  continue-WhenOk (err e) f w p h = tt

  pub Ensures-bind :
      (m : Effect W A) (f : A → Effect W B)
      → Ensures m P
      → ((a : A) → P a → Ensures (f a) Q)
      → Ensures (m >>= f) Q
  Ensures-bind m f hm hf w = continue-WhenOk (m w).0 f (m w).1 (hm w) hf

-- Whatever the first effect returns.
pub Ensures-after :
    {W A B : Type 0} (Q : B → Type 0) (m : Effect W A) (f : A → Effect W B)
    → ((a : A) → Ensures (f a) Q)
    → Ensures (m >>= f) Q
Ensures-after Q m f hf = Ensures-bind (λ _. Unit {0}) Q m f (λ w. WhenOk-Unit (m w).0) (λ a _. hf a)
