-- ===== src/Daemon/WindowsRun/Restoring.antt =====
-- What `RunUntilExit` on Windows leaves of the standard logger, and what it returns.
use cyberdaemon.Prelude.{
  Bool, true, false, List, ◌∷◌, ◌++◌, ◌≡◌, ◌⊎◌, inl, inr, refl, ap, ◌∙◌, Option, none, some, Bytes,
  Result, ok, err, All, if-cases,
}
use cyberdaemon.Control.{LogConfig}
use cyberdaemon.Daemon.{Exit, returned}
use cyberdaemon.Daemon.Windows.{Application, Request, first_error, execute}
use cyberdaemon.Daemon.Windows.Serving.{
  IsStop, GoesOn, run_and_block-stopped, run_and_block-start_failed,
}
use cyberdaemon.Daemon.WindowsRun.{
  to_stderr, Session, Process, in_app, after_interrupt, after_start, run_interactive, run_service,
  new_wrapper, logged, by_session, windows_run,
}

module _ {A : Application} {C : Type 0} where
  -- The logger and the event logs are as before, but that the output may be standard error.
  pub record Restored (before after : Process A C) : Type 0 where
    pub flags : after.log_flags ≡ before.log_flags
    pub event_logs : after.event_logs ≡ before.event_logs
    pub output : (after.log_output ≡ before.log_output) ⊎ (after.log_output ≡ to_stderr)

  unchanged : (r : Process A C) → Restored r r
  unchanged r = record { flags = refl; event_logs = refl; output = inl refl }

  module _ (S : Session A C) (config : LogConfig) where
    interrupt-Restored : (i : Option A.State) (r : Process A C) → Restored r (after_interrupt i r).1
    unfolding after_interrupt
    interrupt-Restored none r = unchanged r
    interrupt-Restored (some s) r = record { flags = refl; event_logs = refl; output = inl refl }

    start-Restored :
        (e : Option Bytes) (s : A.State) (r : Process A C)
        → Restored r (after_start S e (in_app s r)).1
    unfolding after_start
    start-Restored (some e) s r = record { flags = refl; event_logs = refl; output = inl refl }
    start-Restored none s r =
        let there = interrupt-Restored (S.await_interrupt s) (in_app s r) in
        record { flags = there.flags; event_logs = there.event_logs; output = there.output }

    logged-Restored :
        (failure : Option Bytes) (r : Process A C) → Restored r (logged S config failure r).1
    unfolding logged run_service
    logged-Restored (some e) r = unchanged r
    logged-Restored none r = record { flags = refl; event_logs = refl; output = inr refl }

    session-Restored :
        (session : Result Bool) (r : Process A C) → Restored r (by_session S config session r).1
    unfolding by_session run_interactive run_service
    session-Restored (err e) r = unchanged r
    session-Restored (ok true) r = start-Restored (A.start r.app).1 (A.start r.app).0 r
    session-Restored (ok false) r =
        if-cases (λ (end : Exit × Process A C). Restored r end.1) config.use_native_logger
          (λ _. logged-Restored _ r)
          (λ _. record { flags = refl; event_logs = refl; output = inl refl })

    -- However `RunUntilExit` ends on Windows, the flags of the standard logger are those that the
    -- process had, every event log that was opened is closed, and the logger writes to where it
    -- wrote, or to standard error.
    pub windows_run-Restored : (r : Process A C) → Restored r (windows_run S config r).1
    unfolding windows_run
    windows_run-Restored r = session-Restored (S.is_interactive r.app) r

    -- In a session that is not interactive, and where the event log can be opened if it is to be
    -- used, what `RunUntilExit` returns is what `runAndBlock` returns.
    windows_run_service :
        (r : Process A C)
        → S.is_interactive r.app ≡ ok false
        → (config.use_native_logger ≡ true
            → S.open_event_log r.app (S.windows_daemon_id r.app) ≡ none)
        → ((windows_run S config r).0 ≡ (run_service S (S.windows_daemon_id r.app) r).0)
          × ((windows_run S config r).1.stops
              ≡ (run_service S (S.windows_daemon_id r.app) r).1.stops)
    unfolding windows_run by_session logged run_service
    windows_run_service r service opens = rw service (
        if-cases
          (λ (end : Exit × Process A C).
            (end.0 ≡ (run_service S (S.windows_daemon_id r.app) r).0)
            × (end.1.stops ≡ (run_service S (S.windows_daemon_id r.app) r).1.stops))
          config.use_native_logger (λ native. rw (opens native) (refl, refl)) (λ _. (refl, refl)))

    -- A service that starts, and then is sent requests of which one stops it or shuts it down: in
    -- a session that is not interactive, and where the event log can be opened if it is to be
    -- used, `RunUntilExit` returns the error of the application's stop if there is one, and
    -- otherwise that of `svc.Run`. `svc.Run` serves
    -- the requests, and then returns an error of its own or none.
    pub windows_run-stopped :
        (before rest : List (Request C)) (stopping : Request C) (run_err : Option Bytes)
        (r : Process A C)
        → S.is_interactive r.app ≡ ok false
        → (config.use_native_logger ≡ true
            → S.open_event_log r.app (S.windows_daemon_id r.app) ≡ none)
        → S.service_run (S.windows_daemon_id r.app)
          ≡ (λ v. ((execute (before ++ stopping ∷ rest) v).1, run_err))
        → All GoesOn before
        → IsStop stopping
        → (A.start r.app).1 ≡ none
        → (windows_run S config r).0 ≡ returned (first_error (A.stop (A.start r.app).0).1 run_err)
    unfolding run_service
    windows_run-stopped before rest stopping run_err r service opens serves goes stops started =
        (windows_run_service r service opens).0
        ∙ rw serves (
            ap returned (
              run_and_block-stopped before rest stopping (new_wrapper r) run_err goes stops
                started))

    -- A service whose application does not start: in such a session `RunUntilExit` returns the
    -- error of the start, whatever `svc.Run` returns, and the application is not stopped.
    pub windows_run-start_failed :
        (requests : List (Request C)) (run_err : Option Bytes) (e : Bytes) (r : Process A C)
        → S.is_interactive r.app ≡ ok false
        → (config.use_native_logger ≡ true
            → S.open_event_log r.app (S.windows_daemon_id r.app) ≡ none)
        → S.service_run (S.windows_daemon_id r.app) ≡ (λ v. ((execute requests v).1, run_err))
        → (A.start r.app).1 ≡ some e
        → ((windows_run S config r).0 ≡ returned (some e))
          × ((windows_run S config r).1.stops ≡ r.stops)
    unfolding run_service
    windows_run-start_failed requests run_err e r service opens serves failed =
        let (code, stops) = windows_run_service r service opens in
        let (first, second) =
          run_and_block-start_failed requests (new_wrapper r) e run_err failed in
        (code ∙ rw serves (ap returned first), stops ∙ rw serves second)
