-- ===== src/Text/Search.antt =====
-- `strings.HasPrefix`, `strings.TrimPrefix`, `strings.Contains` and `strings.Count`.
use cyberdaemon.Prelude.{
  ℕ, Bool, true, false, ◌&&◌, ◌||◌, ◌==◌, if◌then◌else◌, [], ◌∷◌, ◌++◌, ◌≡◌, refl, Bytes, Lacks,
  arith, drop, length,
}

-- `strings.HasPrefix(s, prefix)`
unfoldable pub has_prefix : Bytes → Bytes → Bool
has_prefix s [] = true
has_prefix [] (p ∷ ps) = false
has_prefix (c ∷ s) (p ∷ ps) = c == p && has_prefix s ps

-- `strings.TrimPrefix(s, prefix)`
unfoldable pub trim_prefix : Bytes → Bytes → Bytes
trim_prefix s p = if has_prefix s p then drop (length p) s else s

-- `strings.Contains(s, sub)`
unfoldable pub contains : Bytes → Bytes → Bool
unfolding has_prefix
contains [] sub = has_prefix [] sub
contains (c ∷ s) sub = has_prefix (c ∷ s) sub || contains s sub

pub has_prefix-append : (p s : Bytes) → has_prefix (p ++ s) p ≡ true
unfolding has_prefix
has_prefix-append [] s = refl
has_prefix-append (c ∷ p) s = ground (arith, has_prefix-append p s)

pub drop-length-append : (p s : Bytes) → drop (length p) (p ++ s) ≡ s
drop-length-append [] s = refl
drop-length-append (c ∷ p) s = drop-length-append p s

pub trim_prefix-append : (p s : Bytes) → trim_prefix (p ++ s) p ≡ s
unfolding trim_prefix
trim_prefix-append p s = ground (arith, has_prefix-append p s, drop-length-append p s)

-- A one-byte text occurs exactly when the byte does.
pub contains-of_Lacks : (b : ℕ) (s : Bytes) → Lacks b s → contains s (b ∷ []) ≡ false
unfolding contains
contains-of_Lacks b [] h = refl
contains-of_Lacks b (c ∷ s) (h, hs) = ground (arith, contains-of_Lacks b s hs)

pub Lacks-of_contains : (b : ℕ) (s : Bytes) → contains s (b ∷ []) ≡ false → Lacks b s
unfolding contains
Lacks-of_contains b [] h = tt
Lacks-of_contains b (c ∷ s) h = (ground arith, Lacks-of_contains b s (ground arith))

-- A longer text has the prefixes of a shorter one.
pub has_prefix-append_left : (s t p : Bytes) → has_prefix s p ≡ true → has_prefix (s ++ t) p ≡ true
unfolding has_prefix
has_prefix-append_left s t [] h = refl
has_prefix-append_left [] t (b ∷ p) h = cc
has_prefix-append_left (c ∷ s) t (b ∷ p) h = ground (arith, has_prefix-append_left s t p)
