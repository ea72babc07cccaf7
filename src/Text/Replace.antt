-- ===== src/Text/Replace.antt =====
-- `strings.NewReplacer(pairs...)` and its `Replace`, for patterns that are not empty.
use cyberdaemon.Prelude.{
  ℕ, zero, suc, ◌-◌, List, [], ◌∷◌, ◌++◌, Option, none, some, Bytes, length, if◌then◌else◌,
}
use cyberdaemon.Text.Search.{has_prefix}

-- The first pair, in the order of the arguments, whose pattern stands at the head of the text.
unfoldable pub first_match : List (Bytes × Bytes) → Bytes → Option (Bytes × Bytes)
unfolding has_prefix
first_match [] s = none
first_match ((old, new) ∷ pairs) s =
    if has_prefix s old then some (old, new) else first_match pairs s

-- The number counts the bytes of a match that are still to be passed over.
unfoldable pub replace_from : List (Bytes × Bytes) → ℕ → Bytes → Bytes
unfolding first_match
replace_from pairs skip [] = []
replace_from pairs (suc skip) (c ∷ s) = replace_from pairs skip s
replace_from pairs zero (c ∷ s) = elim (first_match pairs (c ∷ s)) [
  | none ↦ c ∷ replace_from pairs zero s
  | some (old, new) ↦ new ++ replace_from pairs (length old - 1) s
]

-- Matches are replaced from the left, and what a match takes or puts in is not searched again.
unfoldable pub replace : List (Bytes × Bytes) → Bytes → Bytes
unfolding replace_from
replace pairs s = replace_from pairs zero s
