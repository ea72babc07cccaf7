-- ===== src/Text/FilePath.antt =====
-- `path.Clean`, `path.Join` and `path.Base`, on slash-separated paths.
use mathlib.Core.List.{reverse}
use cyberdaemon.Prelude.{
  ℕ, Bool, true, false, ◌==◌, if◌then◌else◌, List, [], ◌∷◌, Bytes, codes, bytes_eq,
}
use cyberdaemon.Text.Trim.{trim_left}
use cyberdaemon.Text.Split.{split, join}

abbrev pub slash : ℕ
slash = b'/'

is_rooted : Bytes → Bool
is_rooted [] = false
is_rooted (c ∷ s) = c == slash

-- A `..` takes back the last element that is kept (they are given last first). At the root there
-- is none to take, and a path that is not rooted keeps it.
go_up : Bool → List Bytes → List Bytes
go_up true [] = []
go_up false [] = codes ".." ∷ []
go_up rooted (e ∷ kept) = if bytes_eq e (codes "..") then codes ".." ∷ e ∷ kept else kept

clean_elements : Bool → List Bytes → List Bytes → List Bytes
unfolding go_up bytes_eq codes
clean_elements rooted kept [] = kept
clean_elements rooted kept ([] ∷ rest) = clean_elements rooted kept rest
clean_elements rooted kept ((c ∷ s) ∷ rest) =
    clean_elements rooted
      (if bytes_eq (c ∷ s) (codes ".")
        then kept
        else if bytes_eq (c ∷ s) (codes "..")
        then go_up rooted kept
        else (c ∷ s) ∷ kept)
      rest

or_dot : Bytes → Bytes
or_dot [] = codes "."
or_dot (c ∷ s) = c ∷ s

-- `path.Clean(p)`
unfoldable pub clean : Bytes → Bytes
unfolding is_rooted clean_elements or_dot split join
clean p =
    let elements = join (reverse (clean_elements (is_rooted p) [] (split p slash))) (slash ∷ []) in
    if is_rooted p then slash ∷ elements else or_dot elements

non_empty : List Bytes → List Bytes
non_empty [] = []
non_empty ([] ∷ rest) = non_empty rest
non_empty ((c ∷ s) ∷ rest) = (c ∷ s) ∷ non_empty rest

clean_joined : Bytes → Bytes
clean_joined [] = []
clean_joined (c ∷ s) = clean (c ∷ s)

-- `path.Join(elements...)`: empty elements are ignored.
unfoldable pub join_path : List Bytes → Bytes
unfolding non_empty clean_joined clean join
join_path elements = clean_joined (join (non_empty elements) (slash ∷ []))

-- What stands before the first slash.
until_slash : Bytes → Bytes
until_slash [] = []
until_slash (c ∷ s) = let rest = until_slash s in if c == slash then [] else c ∷ rest

or_root : Bytes → Bytes
or_root [] = slash ∷ []
or_root (c ∷ s) = c ∷ s

-- `path.Base(p)`: the last element, without the slashes behind it.
unfoldable pub base : Bytes → Bytes
unfolding until_slash or_root trim_left
base [] = codes "."
base (c ∷ s) = or_root (reverse (until_slash (trim_left (reverse (c ∷ s)) (slash ∷ []))))

from_slash : Bytes → Bytes
from_slash [] = []
from_slash (c ∷ s) = let rest = from_slash s in if c == slash then c ∷ s else rest

-- `path.Dir(p)`: what stands up to the last slash.
unfoldable pub dir : Bytes → Bytes
unfolding from_slash clean
dir p = clean (reverse (from_slash (reverse p)))
