-- ===== src/Text/Split.antt =====
-- `strings.Split` by a one-byte separator, and `strings.Join`.
use cyberdaemon.Prelude.{
  ℕ, suc, length, refl, ◌==◌, if◌then◌else◌, List, [], ◌∷◌, ◌++◌, ◌≡◌, Bytes, Lacks, arith,
  append_assoc, append-nil, ◌∙◌,
}

-- The pieces so far are emitted; `current` is the piece that is being read.
unfoldable pub split_from : ℕ → Bytes → Bytes → List Bytes
split_from sep current [] = current ∷ []
split_from sep current (c ∷ s) =
    let here = current ∷ split_from sep [] s in
    let on = split_from sep (current ++ c ∷ []) s in if c == sep then here else on

-- `strings.Split(s, string(sep))`
unfoldable pub split : Bytes → ℕ → List Bytes
unfolding split_from
split s sep = split_from sep [] s

-- `strings.Join(parts, sep)`
unfoldable pub join : List Bytes → Bytes → Bytes
join [] sep = []
join (p ∷ []) sep = p
join (p ∷ q ∷ ps) sep = p ++ sep ++ join (q ∷ ps) sep

module _ (sep : ℕ) where
  -- A piece without the separator is read up to the separator that ends it.
  pub split_from-append :
      (p current s : Bytes)
      → Lacks sep p
      → split_from sep current (p ++ s) ≡ split_from sep (current ++ p) s
  unfolding split_from
  split_from-append [] current s h = rw append-nil
  split_from-append (c ∷ p) current s (h, hp) =
      ground (arith, split_from-append p (current ++ c ∷ []) s hp, append_assoc current (c ∷ []) p)

  pub split_from_at_sep :
      (current s : Bytes) → split_from sep current (sep ∷ s) ≡ current ∷ split_from sep [] s
  unfolding split_from
  split_from_at_sep current s = ground arith

  -- The first piece of a text is what stands before its first separator.
  pub split_piece : (p s : Bytes) → Lacks sep p → split (p ++ sep ∷ s) sep ≡ p ∷ split s sep
  unfolding split
  split_piece p s h = split_from-append p [] (sep ∷ s) h ∙ split_from_at_sep p s

  pub split_whole : (p : Bytes) → Lacks sep p → split p sep ≡ p ∷ []
  unfolding split
  split_whole p h = let e = split_from-append p [] [] h in rw (append-nil p) at e

-- `strings.Count(s, string(sep))` for one byte.
unfoldable pub count : Bytes → ℕ → ℕ
count [] sep = 0
count (c ∷ s) sep = let rest = count s sep in if c == sep then suc rest else rest

length-split_from :
    (sep : ℕ) (current s : Bytes) → length (split_from sep current s) ≡ suc (count s sep)
unfolding split_from count
length-split_from sep current [] = refl
length-split_from sep current (c ∷ s) =
    ground (arith, length-split_from sep [] s, length-split_from sep (current ++ c ∷ []) s)

-- There is one piece more than there are separators.
pub length-split : (s : Bytes) (sep : ℕ) → length (split s sep) ≡ suc (count s sep)
unfolding split
length-split s sep = length-split_from sep [] s
