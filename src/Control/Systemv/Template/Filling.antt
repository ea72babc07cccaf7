-- ===== src/Control/Systemv/Template/Filling.antt =====
-- What `strings.NewReplacer(...).Replace` makes of a template of placeholders.
use cyberdaemon.Prelude.{
  ℕ, zero, List, [], ◌∷◌, ◌++◌, ◌≡◌, ◌≢◌, refl, ap, ◌∙◌, Bytes, Lacks, All, All-append, arith, none,
  ◌↔◌, Lacks-left, Lacks-right,
}
use cyberdaemon.Text.Replace.{first_match, replace_from, replace}
use cyberdaemon.Control.Systemv.Template.Pieces.{
  Placeholder, service_name, short_description, description, exe_path, arguments, log_file_path,
  pid_file_path, run_as, Piece, text, hole, placeholder_text, spell, fill,
}

-- The arguments of `strings.NewReplacer` in `newSystemvController`, in their order.
unfoldable pub replacements : (Placeholder → Bytes) → List (Bytes × Bytes)
unfolding placeholder_text
replacements value =
    (placeholder_text service_name, value service_name)
    ∷ (placeholder_text short_description, value short_description)
    ∷ (placeholder_text description, value description)
    ∷ (placeholder_text exe_path, value exe_path)
    ∷ (placeholder_text arguments, value arguments)
    ∷ (placeholder_text run_as, value run_as)
    ∷ (placeholder_text log_file_path, value log_file_path)
    ∷ (placeholder_text pid_file_path, value pid_file_path)
    ∷ []

abbrev pub PlainText : Piece → Type 0
PlainText (text t) = Lacks b'^' t
PlainText (hole p) = Unit

-- A pattern that begins with the delimiter.
abbrev Delimited : Bytes × Bytes → Type 0
Delimited (old, new) = (rest : Bytes) × (old ≡ b'^' ∷ rest)

first_match-none :
    (pairs : List (Bytes × Bytes)) (c : ℕ) (s : Bytes)
    → All Delimited pairs
    → c ≢ b'^'
    → first_match pairs (c ∷ s) ≡ none
unfolding first_match
first_match-none [] c s h n = refl
first_match-none ((old, new) ∷ pairs) c s ((rest, e), hs) n =
    rw e (ground (arith, first_match-none pairs c s hs n))

module _ (value : Placeholder → Bytes) where
  first_match-other :
      (c : ℕ) (s : Bytes) → c ≢ b'^' → first_match (replacements value) (c ∷ s) ≡ none
  unfolding replacements
  first_match-other c s n =
      first_match-none (replacements value) c s
        (
          (_, refl),
          (
            (_, refl),
            ((_, refl), ((_, refl), ((_, refl), ((_, refl), ((_, refl), ((_, refl), tt)))))),
          ),
        )
        n

  replace_from-text :
      (t s : Bytes)
      → Lacks b'^' t
      → replace_from (replacements value) zero (t ++ s)
        ≡ t ++ replace_from (replacements value) zero s
  unfolding replace_from
  replace_from-text [] s h = refl
  replace_from-text (c ∷ t) s (h, hs) =
      rw (first_match-other c (t ++ s) h, replace_from) (ap (λ r. c ∷ r) (replace_from-text t s hs))

  replace_from-hole :
      (p : Placeholder) (s : Bytes)
      → replace_from (replacements value) zero (placeholder_text p ++ s)
        ≡ value p ++ replace_from (replacements value) zero s
  unfolding replace_from replacements
  replace_from-hole service_name s = refl
  replace_from-hole _ s = refl

  -- Placeholders in plain text are replaced by their values, all else stays, and the values are
  -- not searched again.
  pub replace-spell :
      (pieces : List Piece)
      → All PlainText pieces
      → replace (replacements value) (spell pieces) ≡ fill value pieces
  unfolding replace spell fill replace_from
  replace-spell [] h = refl
  replace-spell (text t ∷ pieces) (h, hs) =
      replace_from-text t (spell pieces) h ∙ ap (λ r. t ++ r) (replace-spell pieces hs)
  replace-spell (hole p ∷ pieces) (h, hs) =
      replace_from-hole p (spell pieces) ∙ ap (λ r. value p ++ r) (replace-spell pieces hs)

-- The delimiter occurs in a filled template exactly if it occurs in a value that is put in.
module _ (value : Placeholder → Bytes) where
  abbrev pub PlainValue : Piece → Type 0
  PlainValue (text t) = Unit
  PlainValue (hole p) = Lacks b'^' (value p)

  pub Lacks-fill :
      (pieces : List Piece)
      → All PlainText pieces
      → Lacks b'^' (fill value pieces) ↔ All PlainValue pieces
  unfolding fill
  Lacks-fill [] h = (λ _. tt, λ _. tt)
  Lacks-fill (text t ∷ pieces) (h, hs) = (
    λ l. (tt, (Lacks-fill pieces hs).0 (Lacks-right b'^' t _ l)),
    λ a. All-append _ t _ h ((Lacks-fill pieces hs).1 a.1),
  )
  Lacks-fill (hole p ∷ pieces) (h, hs) = (
    λ l. (Lacks-left b'^' (value p) _ l, (Lacks-fill pieces hs).0 (Lacks-right b'^' (value p) _ l)),
    λ a. All-append _ (value p) _ a.0 ((Lacks-fill pieces hs).1 a.1),
  )
