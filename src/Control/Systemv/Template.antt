-- ===== src/Control/Systemv/Template.antt =====
-- The template of the init.d script, `systemvTemplate` of control/controller_systemv_linux.go, in
-- the order of the source.
pub mod Pieces
pub mod Header
pub mod Functions
pub mod Dispatch
pub mod Filling
use cyberdaemon.Prelude.{List, ◌++◌}
use Pieces.{Piece}
use Header.{header, variables}
use Functions.{start_function, other_functions}
use Dispatch.{dispatch}

unfoldable pub systemv_template : List Piece
unfolding header variables start_function other_functions dispatch
systemv_template = header ++ (variables ++ (start_function ++ (other_functions ++ dispatch)))
