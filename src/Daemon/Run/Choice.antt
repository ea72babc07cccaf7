-- ===== src/Daemon/Run/Choice.antt =====
-- The daemonizer and the controller of a system fit each other: `NewDaemonizer` of daemon_linux.go
-- and `NewController` of control/controller_linux.go settle on the same service manager.
use cyberdaemon.Prelude.{
  Bool, true, false, List, ◌≡◌, refl, subst, Bytes, ok, err, Result, if◌then◌else◌,
}
use cyberdaemon.Os.{Os, World, Action, continue, pure, ◌>>=◌}
use cyberdaemon.Osutil.{SystemvTools, is_systemd, is_systemv}
use cyberdaemon.Control.{LogConfig, ControllerConfig, Controller}
use cyberdaemon.Control.Systemd.{UnitOption}
use cyberdaemon.Control.Linux.{systemd_controller, systemv_controller, new_controller}
use cyberdaemon.Daemon.Run.{
  Daemonizer, systemd_daemonizer, systemv_daemonizer, err_daemonizer, by_tools, new_daemonizer,
}

module _ (O : Os) (serialize : List UnitOption → Result Bytes) (config : ControllerConfig)
    (log_config : LogConfig) where
  -- A controller that fits a daemonizer: made for the same service manager, or refused with the
  -- reason that the daemonizer gives.
  abbrev pub Fits : Daemonizer → Result (Controller (World O)) × World O → Type 0
  Fits (systemd_daemonizer c) made =
      (path : Bytes) × (u : World O) × (made ≡ systemd_controller O serialize config path u)
  Fits (systemv_daemonizer c) made =
      (tools : SystemvTools) × (u : World O) × (tools.found ≡ true)
      × (made ≡ systemv_controller O serialize config tools u)
  Fits (err_daemonizer reason) made = made.0 ≡ err reason

  abbrev daemonizer_after : Bytes × Bool → Action O Daemonizer
  daemonizer_after answer =
      if answer.1
      then pure (systemd_daemonizer log_config)
      else is_systemv O >>= λ tools. pure (by_tools log_config tools)

  abbrev controller_after : Bytes × Bool → Action O (Controller (World O))
  controller_after answer =
      if answer.1
      then systemd_controller O serialize config answer.0
      else is_systemv O >>= systemv_controller O serialize config

  by_tools-Fits :
      (tools : SystemvTools) (u : World O) (found : Bool)
      → tools.found ≡ found
      → Fits (by_tools log_config tools) (systemv_controller O serialize config tools u)
  unfolding systemv_controller
  by_tools-Fits tools u true h = rw h (tools, u, h, rw h)
  by_tools-Fits tools u false h = rw h refl

  systemv-Fits :
      (found : Result SystemvTools) (u : World O) (d : Daemonizer)
      → (continue found (λ tools. pure (by_tools log_config tools)) u).0 ≡ ok d
      → Fits d (continue found (systemv_controller O serialize config) u)
  systemv-Fits (err e) u d h = cc
  systemv-Fits (ok tools) u d h =
      let e : by_tools log_config tools ≡ d = cc in
      subst (λ c. Fits c (systemv_controller O serialize config tools u)) e
        (by_tools-Fits tools u tools.found refl)

  answer-Fits :
      (answer : Result (Bytes × Bool)) (u : World O) (d : Daemonizer)
      → (continue answer daemonizer_after u).0 ≡ ok d
      → Fits d (continue answer controller_after u)
  answer-Fits (err e) u d h = cc
  answer-Fits (ok (path, true)) u d h =
      let e : systemd_daemonizer log_config ≡ d = cc in
      subst (λ c. Fits c (systemd_controller O serialize config path u)) e (path, u, refl)
  answer-Fits (ok (path, false)) u d h = systemv-Fits (is_systemv O u).0 (is_systemv O u).1 d h

  -- A process that asks for a daemonizer and for a controller in one state of the system gets both
  -- for the same service manager; if there is none, the controller is refused with the same reason.
  pub new_daemonizer-Fits :
      (w : World O) (d : Daemonizer)
      → (new_daemonizer O log_config w).0 ≡ ok d
      → Fits d (new_controller O serialize config w)
  unfolding new_daemonizer new_controller
  new_daemonizer-Fits w d h = answer-Fits (is_systemd O w).0 (is_systemd O w).1 d h
