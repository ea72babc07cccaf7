-- ===== src/Control/Systemv/Script.antt =====
-- The init.d script that `newSystemvController` makes from a configuration.
use cyberdaemon.Prelude.{
  Bool, true, List, [], ◌∷◌, ◌≡◌, ◌↔◌, ◌&&◌, refl, Bytes, Lacks, All, lacks, Lacks-of_lacks, ok,
  arith,
}
use cyberdaemon.Text.Search.{contains-of_Lacks, Lacks-of_contains}
use cyberdaemon.Control.{ControllerConfig}
use cyberdaemon.Control.Systemv.Template.{systemv_template}
use cyberdaemon.Control.Systemv.Template.Pieces.{
  Placeholder, service_name, short_description, description, exe_path, arguments, log_file_path,
  pid_file_path, run_as, Piece, text, hole, fill,
}
use cyberdaemon.Control.Systemv.Template.Filling.{PlainText, PlainValue, replace-spell, Lacks-fill}
use cyberdaemon.Control.Systemv.{script_values, init_script, check_script}

plain : (t : Bytes) → lacks b'^' t ≡ true → Lacks b'^' t
plain t h = Lacks-of_lacks b'^' t h

abbrev is_plain : Piece → Bool
is_plain (text t) = lacks b'^' t
is_plain (hole p) = true

abbrev all_plain : List Piece → Bool
all_plain [] = true
all_plain (x ∷ xs) = is_plain x && all_plain xs

PlainText-of_all_plain : (pieces : List Piece) → all_plain pieces ≡ true → All PlainText pieces
PlainText-of_all_plain [] h = tt
PlainText-of_all_plain (text t ∷ pieces) h =
    (Lacks-of_lacks b'^' t (ground arith), PlainText-of_all_plain pieces (ground arith))
PlainText-of_all_plain (hole p ∷ pieces) h = (tt, PlainText-of_all_plain pieces h)

template_plain : all_plain systemv_template ≡ true
unfolding systemv_template lacks
template_plain = refl

pub template-PlainText : All PlainText systemv_template
template-PlainText = PlainText-of_all_plain systemv_template template_plain

-- The script is the template with the configured values in the places of the placeholders: every
-- placeholder is replaced, by its own value, and nothing else is changed, whatever the values hold.
pub init_script-fill :
    (config : ControllerConfig) → init_script config ≡ fill (script_values config) systemv_template
unfolding init_script
init_script-fill config = replace-spell (script_values config) systemv_template template-PlainText

module _ (value : Placeholder → Bytes) where
  PlainValue-All :
      ((p : Placeholder) → Lacks b'^' (value p))
      → (pieces : List Piece) → All (PlainValue value) pieces
  PlainValue-All h [] = tt
  PlainValue-All h (text t ∷ pieces) = (tt, PlainValue-All h pieces)
  PlainValue-All h (hole p ∷ pieces) = (h p, PlainValue-All h pieces)

  PlainValue-each :
      All (PlainValue value) systemv_template → (p : Placeholder) → Lacks b'^' (value p)
  unfolding systemv_template
  PlainValue-each h service_name = h.1.0
  PlainValue-each h short_description = h.1.1.1.0
  PlainValue-each h description = h.1.1.1.1.1.0
  PlainValue-each h exe_path = h.1.1.1.1.1.1.1.1.1.1.0
  PlainValue-each h arguments = h.1.1.1.1.1.1.1.1.1.1.1.1.0
  PlainValue-each h run_as = h.1.1.1.1.1.1.1.1.1.1.1.1.1.1.0
  PlainValue-each h pid_file_path = h.1.1.1.1.1.1.1.1.1.1.1.1.1.1.1.1.1.1.0
  PlainValue-each h log_file_path = h.1.1.1.1.1.1.1.1.1.1.1.1.1.1.1.1.1.1.1.1.1.0

Lacks-init_script_iff :
    (config : ControllerConfig)
    → Lacks b'^' (init_script config) ↔ ((p : Placeholder) → Lacks b'^' (script_values config p))
Lacks-init_script_iff config = rw (init_script-fill config) (
  λ l.
      PlainValue-each (script_values config)
        ((Lacks-fill (script_values config) systemv_template template-PlainText).0 l),
  λ h.
      (Lacks-fill (script_values config) systemv_template template-PlainText).1
        (PlainValue-All (script_values config) h systemv_template),
)

-- The test for placeholders that are left passes exactly if no configured value holds the
-- delimiter itself. So a value with a `^` is refused although all placeholders were replaced.
pub check_script-ok_iff :
    (config : ControllerConfig)
    → (check_script (init_script config) ≡ ok (init_script config))
      ↔ ((p : Placeholder) → Lacks b'^' (script_values config p))
unfolding check_script
check_script-ok_iff config = (
  λ h.
      (Lacks-init_script_iff config).0 (Lacks-of_contains b'^' (init_script config) (ground arith)),
  λ h. rw (contains-of_Lacks b'^' (init_script config) ((Lacks-init_script_iff config).1 h)),
)
