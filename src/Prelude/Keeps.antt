-- ===== src/Prelude/Keeps.antt =====
-- Properties of the world that an action leaves as they are, and the parts of an action that
-- succeeds.
use Prim.Native.Nat.{ℕ}
use mathlib.Core.Path.{◌≡◌, refl}
use mathlib.Core.List.{List}
use mathlib.Core.Option.{Option, none, some}
use cyberdaemon.Prelude.Errors.{Result, ok, err}
use cyberdaemon.Prelude.Effects.{Effect, continue, check, pure, ◌>>=◌, ◌>>◌}

abbrev pub Keeps : {W A : Type 0} → (W → Type 0) → Effect W A → Type 0
Keeps {W} P m = (w : W) → P w → P (m w).1

module _ {W : Type 0} (P : W → Type 0) where
  pub Keeps-pure : Keeps P (pure tt)
  Keeps-pure w h = h

  pub Keeps-bind :
      {A B : Type 0} (m : Effect W A) (f : A → Effect W B)
      → Keeps P m
      → ((a : A) → Keeps P (f a))
      → Keeps P (m >>= f)
  Keeps-bind {A} {B} m f hm hf w h = go (m w).0 (m w).1 (hm w h)
    where
      go : (r : Result A) (w' : W) → P w' → P (continue r f w').1
      go (ok a) w' h' = hf a w' h'
      go (err e) w' h' = h'

  pub Keeps-then : (m n : Effect W (Unit {0})) → Keeps P m → Keeps P n → Keeps P (m >> n)
  Keeps-then m n hm hn = Keeps-bind m (λ _. n) hm (λ _. hn)

module _ {W : Type 0} where
  continue-ok :
      (n : Effect W (Unit {0})) (end : Result (Unit {0}) × W)
      → (continue end.0 (λ _. n) end.1).0 ≡ ok tt
      → (end.0 ≡ ok tt) × (continue end.0 (λ _. n) end.1 ≡ n end.1)
  continue-ok n (ok u, w) h = (refl, refl)
  continue-ok n (err e, w) h = cc

  -- If two actions in turn succeed, the first does, and the second runs where the first ends.
  pub then-ok :
      (m n : Effect W (Unit {0})) (w : W)
      → ((m >> n) w).0 ≡ ok tt
      → ((m w).0 ≡ ok tt) × ((m >> n) w ≡ n (m w).1)
  then-ok m n w h = continue-ok n (m w) h

  pub check-ok :
      (failure : Option (List ℕ)) (w : W)
      → (check {W = W} failure w).0 ≡ ok tt
      → (failure ≡ none) × ((check {W = W} failure w).1 ≡ w)
  check-ok none w h = (refl, refl)
  check-ok (some e) w h = cc

  pub check_world : (failure : Option (List ℕ)) (w : W) → (check {W = W} failure w).1 ≡ w
  check_world none w = refl
  check_world (some e) w = refl
