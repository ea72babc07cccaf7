-- ===== src/Daemon/Run.antt =====
-- daemon_systemd_linux.go, daemon_darwin.go and daemon_linux.go, and what they share with
-- daemon_systemv_linux.go.
pub mod Flags
pub mod Application
pub mod Choice
use cyberdaemon.Prelude.{
  ℕ, Bool, true, false, ◌&&◌, List, [], ◌∷◌, ◌++◌, Option, none, some, Bytes, codes, ltb,
  if◌then◌else◌,
}
use cyberdaemon.Prelude.Int.{ℤ, pos, negsuc}
use cyberdaemon.Os.{Os, Action, pure, ◌>>=◌}
use cyberdaemon.Osutil.{SystemvTools, is_systemd, is_systemv}
use cyberdaemon.Control.{LogConfig, is_empty}
use cyberdaemon.Daemon.{
  Host, Runtime, Program, Exit, returned, waiting, started_application, stopped_application,
  received_signal, set_flags, set_output, after_step, finish,
}

-- `flags > 0`
abbrev pub is_positive : ℤ → Bool
is_positive (pos n) = ltb 0 n
is_positive (negsuc n) = false

module _ {H : Host} where
  -- `len(os.Getenv("PS1")) == 0`
  abbrev pub is_daemon : Runtime H → Bool
  is_daemon r = is_empty (H.getenv r.world.state (codes "PS1"))

  -- The end of each `RunUntilExit`: the application runs until a signal is received.
  unfoldable pub run_application : Program H
  run_application r =
      let (started, start_error) = H.start_application r.world.state in
      let running = after_step started_application started r in
      elim start_error [
        | some e ↦ (returned (some e), running)
        | none ↦ elim (H.await_signal started) [
          | none ↦ (waiting, running)
          | some signalled ↦
              let (stopped, stop_error) = H.stop_application signalled in
              (
                returned stop_error,
                after_step stopped_application stopped
                    (after_step received_signal signalled running),
              )
        ]
      ]

  -- `if NativeLogFlags > 0`, with the deferred reset.
  unfoldable pub with_flags : LogConfig → Program H → Program H
  with_flags config body r =
      if is_positive config.native_log_flags
      then finish (set_flags r.log_flags) (body (set_flags config.native_log_flags r))
      else body r

  -- `systemdDaemonizer.RunUntilExit`
  unfoldable pub systemd_run : LogConfig → Program H
  unfolding run_application with_flags
  systemd_run config r =
      if config.use_native_logger && is_daemon r
      then with_flags config run_application (set_flags (pos 0) (set_output r))
      else run_application r

  -- `darwinDaemonizer.RunUntilExit`
  unfoldable pub darwin_run : LogConfig → Program H
  unfolding run_application with_flags
  darwin_run config r =
      if config.use_native_logger && is_daemon r
      then with_flags config run_application (set_output r)
      else run_application r

-- The daemonizers of Linux.
pub data Daemonizer : Type 0 where
  systemd_daemonizer systemv_daemonizer : LogConfig → Daemonizer
  err_daemonizer : Bytes → Daemonizer

-- `errDaemonizer.RunUntilExit`
unfoldable pub err_run : {H : Host} → Bytes → Program H
err_run reason r = (
  returned (some (codes "no suitable daemonization logic available for this system - " ++ reason)),
  r,
)

abbrev pub by_tools : LogConfig → SystemvTools → Daemonizer
by_tools config tools =
    if tools.found then systemv_daemonizer config else err_daemonizer tools.why_not_systemv

module _ (O : Os) where
  -- `NewDaemonizer` of daemon_linux.go
  unfoldable pub new_daemonizer : LogConfig → Action O Daemonizer
  new_daemonizer config = do
    (path, found) ← is_systemd O
    let systemv = is_systemv O >>= λ tools. pure (by_tools config tools)
    if found then pure (systemd_daemonizer config) else systemv
