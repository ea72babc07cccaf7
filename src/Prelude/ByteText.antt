-- ===== src/Prelude/ByteText.antt =====
-- Go strings: sequences of bytes.
use Prim.Native.Nat.{ℕ}
use Prim.Native.Char.{code}
use Prim.Native.String.{String}
use mathlib.Core.Path.{◌≡◌, refl}
use mathlib.Core.Logic.{◌≢◌}
use mathlib.Core.Bool.{Bool, true, false, not, ◌&&◌}
use mathlib.Core.List.{List, [], ◌∷◌, ◌++◌}
use native.Mathlib.Omega.{arith}
use cyberdaemon.Prelude.Tests.{◌==◌}
use cyberdaemon.Prelude.Lists.{All}

abbrev pub Bytes : Type 0
Bytes = List ℕ

-- The bytes of a literal. All literals of the program are ASCII.
unfoldable pub codes : String → Bytes
codes String.[] = []
codes (String.◌∷◌ c s) = code c ∷ codes s

-- `==` on strings.
unfoldable pub bytes_eq : Bytes → Bytes → Bool
bytes_eq [] [] = true
bytes_eq (a ∷ s) (b ∷ t) = a == b && bytes_eq s t
bytes_eq _ _ = false

pub bytes_eq_refl : (s : Bytes) → bytes_eq s s ≡ true
unfolding bytes_eq
bytes_eq_refl [] = refl
bytes_eq_refl (a ∷ s) = ground (arith, bytes_eq_refl s)

pub eq_of_bytes_eq : (s t : Bytes) → bytes_eq s t ≡ true → s ≡ t
unfolding bytes_eq
eq_of_bytes_eq [] [] h = refl
eq_of_bytes_eq [] (b ∷ t) h = cc
eq_of_bytes_eq (a ∷ s) [] h = cc
eq_of_bytes_eq (a ∷ s) (b ∷ t) h = ground (arith, eq_of_bytes_eq s t)

-- The byte does not occur.
abbrev pub Lacks : ℕ → Bytes → Type 0
Lacks b = All (λ c. c ≢ b)

pub Lacks-left : (b : ℕ) (s t : Bytes) → Lacks b (s ++ t) → Lacks b s
Lacks-left b [] t h = tt
Lacks-left b (c ∷ s) t (h, hs) = (h, Lacks-left b s t hs)

pub Lacks-right : (b : ℕ) (s t : Bytes) → Lacks b (s ++ t) → Lacks b t
Lacks-right b [] t h = h
Lacks-right b (c ∷ s) t (h, hs) = Lacks-right b s t hs

-- `Lacks` by evaluation.
unfoldable pub lacks : ℕ → Bytes → Bool
lacks b [] = true
lacks b (c ∷ s) = not (c == b) && lacks b s

pub Lacks-of_lacks : (b : ℕ) (s : Bytes) → lacks b s ≡ true → Lacks b s
unfolding lacks
Lacks-of_lacks b [] h = tt
Lacks-of_lacks b (c ∷ s) h = (ground arith, Lacks-of_lacks b s (ground arith))
