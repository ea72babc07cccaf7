-- ===== src/Control/Systemv/Template/Pieces.antt =====
-- The parts of a template: literal text, by its lines, and placeholders
-- (control/controller_systemv_linux.go, the constants at the end of the block).
use cyberdaemon.Prelude.{String, List, [], ◌∷◌, ◌++◌, Bytes, codes}

pub data Placeholder : Type 0 where
  service_name short_description description exe_path arguments : Placeholder
  log_file_path pid_file_path run_as : Placeholder

abbrev pub placeholder_delim : Bytes
placeholder_delim = b'^' ∷ []

placeholder_name : Placeholder → Bytes
placeholder_name service_name = codes "NAME"
placeholder_name short_description = codes "SHORT_DESCRIPTION"
placeholder_name description = codes "DESCRIPTION"
placeholder_name exe_path = codes "EXE_PATH"
placeholder_name arguments = codes "ARGUMENTS"
placeholder_name log_file_path = codes "LOG_FILE_PATH"
placeholder_name pid_file_path = codes "PID_FILE_PATH"
placeholder_name run_as = codes "RUN_AS"

-- `placeholderDelim + "…" + placeholderDelim`
unfoldable pub placeholder_text : Placeholder → Bytes
unfolding placeholder_name codes
placeholder_text p = placeholder_delim ++ (placeholder_name p ++ placeholder_delim)

pub data Piece : Type 0 where
  text : Bytes → Piece
  hole : Placeholder → Piece

-- Lines with a line feed between each two.
unfoldable pub chunk : List String → Bytes
unfolding codes
chunk [] = []
chunk (s ∷ []) = codes s
chunk (s ∷ t ∷ rest) = codes s ++ (b'\n' ∷ chunk (t ∷ rest))

-- The bytes of a template, with the placeholders spelled out.
unfoldable pub spell : List Piece → Bytes
spell [] = []
spell (text t ∷ pieces) = t ++ spell pieces
spell (hole p ∷ pieces) = placeholder_text p ++ spell pieces

-- A template with a value for each placeholder: what the replacement is meant to produce.
unfoldable pub fill : (Placeholder → Bytes) → List Piece → Bytes
fill value [] = []
fill value (text t ∷ pieces) = t ++ fill value pieces
fill value (hole p ∷ pieces) = value p ++ fill value pieces
