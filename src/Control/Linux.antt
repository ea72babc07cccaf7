-- ===== src/Control/Linux.antt =====
-- control/controller_linux.go: which of the two controllers a Linux system gets. The reason that is
-- handed to `fmt.Errorf` as its format has no `%`, so it is the text of the error.
pub mod Choice
pub mod Faithful
use cyberdaemon.Prelude.{Bool, true, false, List, Bytes, Result, if◌then◌else◌}
use cyberdaemon.Os.{Os, World, Action, pure, raise, ◌>>=◌}
use cyberdaemon.Osutil.{SystemvTools, is_systemd, is_systemv}
use cyberdaemon.Control.{ControllerConfig, Controller}
use cyberdaemon.Control.Systemd
use cyberdaemon.Control.Systemd.{UnitOption, new_systemd_controller}
use cyberdaemon.Control.Systemv
use cyberdaemon.Control.Systemv.{new_systemv_controller}

module _ (O : Os) (serialize : List UnitOption → Result Bytes) where
  unfoldable pub systemd_controller : ControllerConfig → Bytes → Action O (Controller (World O))
  systemd_controller config path = do
    o ← new_systemd_controller O serialize config path
    pure (Systemd.controller O o)

  unfoldable pub systemv_controller :
      ControllerConfig → SystemvTools → Action O (Controller (World O))
  systemv_controller config tools =
      let made = do
        o ← new_systemv_controller O config tools.service_path tools.is_red_hat
        pure (Systemv.controller O o)
      in if tools.found then made else raise tools.why_not_systemv

  -- `NewController`
  unfoldable pub new_controller : ControllerConfig → Action O (Controller (World O))
  unfolding systemd_controller systemv_controller
  new_controller config = do
    (path, found) ← is_systemd O
    if found then systemd_controller config path else is_systemv O >>= systemv_controller config
