-- ===== src/Text/Trim.antt =====
-- `strings.Trim` and `strings.TrimSpace`.
use mathlib.Core.List.{reverse}
use cyberdaemon.Prelude.{ℕ, Bool, false, ◌&&◌, ◌||◌, ◌==◌, leb, if◌then◌else◌, [], ◌∷◌, Bytes}

-- Whether `c` is one of the bytes of a cut set.
unfoldable pub has_byte : Bytes → ℕ → Bool
has_byte [] c = false
has_byte (b ∷ set) c = b == c || has_byte set c

unfoldable pub trim_left : Bytes → Bytes → Bytes
unfolding has_byte
trim_left [] set = []
trim_left (c ∷ s) set = let rest = trim_left s set in if has_byte set c then rest else c ∷ s

-- `strings.Trim(s, cutset)` for a cut set of ASCII bytes.
unfoldable pub trim : Bytes → Bytes → Bytes
unfolding trim_left
trim s set = reverse (trim_left (reverse (trim_left s set)) set)

-- The white space of Unicode, by the length of its UTF-8 encoding.
unfoldable pub space_one : ℕ → Bool
space_one c = (leb 0x09 c && leb c 0x0d) || c == 0x20

unfoldable pub space_two : ℕ → ℕ → Bool
space_two a b = a == 0xc2 && (b == 0x85 || b == 0xa0)

unfoldable pub space_three : ℕ → ℕ → ℕ → Bool
space_three a b c =
    (a == 0xe1 && b == 0x9a && c == 0x80)
    || (a == 0xe2
        && b == 0x80
        && ((leb 0x80 c && leb c 0x8a) || c == 0xa8 || c == 0xa9 || c == 0xaf))
    || (a == 0xe2 && b == 0x81 && c == 0x9f)
    || (a == 0xe3 && b == 0x80 && c == 0x80)

unfoldable pub trim_space_left : Bytes → Bytes
unfolding space_one space_two space_three
trim_space_left [] = []
trim_space_left (a ∷ []) = if space_one a then [] else a ∷ []
trim_space_left (a ∷ b ∷ []) =
    let rest = trim_space_left (b ∷ []) in
    if space_one a then rest else if space_two a b then [] else a ∷ b ∷ []
trim_space_left (a ∷ b ∷ c ∷ s) =
    let after_one = trim_space_left (b ∷ c ∷ s) in
    let after_two = trim_space_left (c ∷ s) in
    let after_three = trim_space_left s in
    if space_one a
    then after_one
    else if space_two a b
    then after_two
    else if space_three a b c
    then after_three
    else a ∷ b ∷ c ∷ s

-- The same at the end of a text, which is given back to front.
unfoldable pub trim_space_right : Bytes → Bytes
unfolding space_one space_two space_three
trim_space_right [] = []
trim_space_right (a ∷ []) = if space_one a then [] else a ∷ []
trim_space_right (a ∷ b ∷ []) =
    let rest = trim_space_right (b ∷ []) in
    if space_one a then rest else if space_two b a then [] else a ∷ b ∷ []
trim_space_right (a ∷ b ∷ c ∷ s) =
    let after_one = trim_space_right (b ∷ c ∷ s) in
    let after_two = trim_space_right (c ∷ s) in
    let after_three = trim_space_right s in
    if space_one a
    then after_one
    else if space_two b a
    then after_two
    else if space_three c b a
    then after_three
    else a ∷ b ∷ c ∷ s

-- `strings.TrimSpace(s)`
unfoldable pub trim_space : Bytes → Bytes
unfolding trim_space_left trim_space_right
trim_space s = reverse (trim_space_right (reverse (trim_space_left s)))
