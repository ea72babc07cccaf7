-- ===== src/Daemon/Run/Flags.antt =====
-- The flags of the standard logger after `RunUntilExit`.
use cyberdaemon.Prelude.{◌&&◌, ◌≡◌, refl, Bool-cases, inl, inr, arith, if◌then◌else◌}
use cyberdaemon.Prelude.Int.{ℤ, pos}
use cyberdaemon.Control.{LogConfig}
use cyberdaemon.Daemon.{
  Host, Runtime, Program, Exit, returned, waiting, set_flags, set_output, finish,
}
use cyberdaemon.Daemon.Run.{
  is_positive, is_daemon, run_application, with_flags, systemd_run, darwin_run,
}

abbrev pub Returns : Exit → Type 0
Returns (returned e) = Unit
Returns waiting = ⊥

module _ {H : Host} where
  pub run_application_flags : (r : Runtime H) → (run_application r).1.log_flags ≡ r.log_flags
  unfolding run_application
  run_application_flags r = ground arith

  finish_flags :
      (flags : ℤ) (end : Exit × Runtime H)
      → Returns (finish (set_flags flags) end).0
      → (finish (set_flags flags) end).1.log_flags ≡ flags
  finish_flags flags (returned e, r) h = refl
  finish_flags flags (waiting, r) h = absurd h

  -- A body that keeps the flags, run with other flags, leaves them as they were.
  pub with_flags_flags :
      (config : LogConfig) (body : Program H) (r : Runtime H)
      → (body r).1.log_flags ≡ r.log_flags
      → Returns (with_flags config body r).0
      → (with_flags config body r).1.log_flags ≡ r.log_flags
  unfolding with_flags
  with_flags_flags config body r keeps = elim (Bool-cases (is_positive config.native_log_flags)) [
    | inl on ↦ rw on (λ h. finish_flags r.log_flags (body (set_flags config.native_log_flags r)) h)
    | inr off ↦ rw off (λ h. keeps)
  ]

  -- On macOS, when `RunUntilExit` returns, on whichever branch, the logger has the flags that it
  -- had before.
  pub darwin_run_flags :
      (config : LogConfig) (r : Runtime H)
      → Returns (darwin_run config r).0
      → (darwin_run config r).1.log_flags ≡ r.log_flags
  unfolding darwin_run
  darwin_run_flags config r = elim (Bool-cases (config.use_native_logger && is_daemon r)) [
    | inl on ↦
        rw on
          (λ h. with_flags_flags config run_application (set_output r) (run_application_flags _) h)
    | inr off ↦ rw off (λ h. run_application_flags r)
  ]

  -- With systemd, when `RunUntilExit` returns after it has turned to the native logger, the flags
  -- are 0, whatever they were before and whatever flags are configured; else they are kept.
  pub systemd_run_flags :
      (config : LogConfig) (r : Runtime H)
      → Returns (systemd_run config r).0
      → (systemd_run config r).1.log_flags
        ≡ (if config.use_native_logger && is_daemon r then pos 0 else r.log_flags)
  unfolding systemd_run
  systemd_run_flags config r = elim (Bool-cases (config.use_native_logger && is_daemon r)) [
    | inl on ↦ rw on (λ h.
        with_flags_flags config run_application (set_flags (pos 0) (set_output r))
          (run_application_flags _) h)
    | inr off ↦ rw off (λ h. run_application_flags r)
  ]
