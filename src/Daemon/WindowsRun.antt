-- ===== src/Daemon/WindowsRun.antt =====
-- `RunUntilExit` of daemon_windows.go, with its event log. `svc`, `eventlog` and `signal` are
-- parameters, and so is the application.
pub mod Restoring
use cyberdaemon.Prelude.{
  ℕ, suc, one_less, Bool, true, false, List, [], Option, none, some, Bytes, Result, ok, err, length,
  if◌then◌else◌,
}
use cyberdaemon.Prelude.Int.{ℤ, pos}
use cyberdaemon.Control.{LogConfig}
use cyberdaemon.Daemon.{Exit, returned, waiting, finish}
use cyberdaemon.Daemon.Run.{is_positive}
use cyberdaemon.Daemon.Windows.{Application, Wrapper, Report, run_and_block}

-- Where the standard logger writes to.
pub data LogOutput : Type 0 where
  to_stderr to_event_log to_other : LogOutput

-- What `RunUntilExit` uses of the system, which is part of the state of the application.
pub record Session (A : Application) (Current : Type 0) : Type 0 where
  -- `svc.IsAnInteractiveSession()`
  pub is_interactive : A.State → Result Bool
  -- the state in which an interrupt is received, if one ever is
  pub await_interrupt : A.State → Option A.State
  -- `application.WindowsDaemonID()`
  pub windows_daemon_id : A.State → Bytes
  -- `eventlog.Open(source)`
  pub open_event_log : A.State → Bytes → Option Bytes
  -- `svc.Run(name, wrapper)`
  pub service_run : Bytes → Wrapper A Current → Wrapper A Current × Option Bytes

-- The application, the standard logger, and the event logs that are open.
pub record Process (A : Application) (Current : Type 0) : Type 0 where
  pub app : A.State
  pub log_flags : ℤ
  pub log_output : LogOutput
  pub event_logs : ℕ
  -- what was reported to the service manager, the latest first
  pub reports : List (Report Current)
  -- how often `Stop` of the application was called
  pub stops : ℕ

-- `eventLogWriter.Write`, where `info` writes one message: the number of bytes, and the error.
unfoldable pub event_log_write :
    {S : Type 0} → (S → ℕ → Bytes → S × Option Bytes) → S → Bytes → S × (ℕ × Option Bytes)
event_log_write info s p =
    let (t, failure) = info s 0 p in
    elim failure [ some e ↦ (t, (0, some e)) | none ↦ (t, (length p, none)) ]

-- The flags for the event log, which has timestamps of its own.
unfoldable pub event_log_flags : LogConfig → ℤ
event_log_flags config =
    if is_positive config.native_log_flags then config.native_log_flags else pos 0

module _ {A : Application} {Current : Type 0} where
  abbrev pub in_app : A.State → Process A Current → Process A Current
  in_app s r = record {
    app = s;
    log_flags = r.log_flags;
    log_output = r.log_output;
    event_logs = r.event_logs;
    reports = r.reports;
    stops = r.stops;
  }

  -- `log.SetFlags(flags)`
  abbrev pub set_flags : ℤ → Process A Current → Process A Current
  set_flags flags r = record {
    app = r.app;
    log_flags = flags;
    log_output = r.log_output;
    event_logs = r.event_logs;
    reports = r.reports;
    stops = r.stops;
  }

  -- `log.SetOutput(output)`, with the event logs that are open afterwards
  abbrev pub set_output : LogOutput → (ℕ → ℕ) → Process A Current → Process A Current
  set_output output logs r = record {
    app = r.app;
    log_flags = r.log_flags;
    log_output = output;
    event_logs = logs r.event_logs;
    reports = r.reports;
    stops = r.stops;
  }

  -- The `serviceWrapper` that `RunUntilExit` makes.
  abbrev pub new_wrapper : Process A Current → Wrapper A Current
  new_wrapper r = record { app = r.app; last_err = none; reports = r.reports; stops = r.stops }

  after_interrupt : Option A.State → Process A Current → Exit × Process A Current
  after_interrupt none r = (waiting, r)
  after_interrupt (some interrupted) r =
      let (stopped, stop_error) = A.stop interrupted in
      (
        returned stop_error,
        record {
          app = stopped;
          log_flags = r.log_flags;
          log_output = r.log_output;
          event_logs = r.event_logs;
          reports = r.reports;
          stops = suc r.stops;
        },
      )

  module _ (S : Session A Current) where
    after_start : Option Bytes → Process A Current → Exit × Process A Current
    unfolding after_interrupt
    after_start (some e) r = (returned (some e), r)
    after_start none r = after_interrupt (S.await_interrupt r.app) r

    -- In an interactive session the application runs until an interrupt is received.
    unfoldable pub run_interactive : Process A Current → Exit × Process A Current
    unfolding after_start
    run_interactive r =
        let (started, start_error) = A.start r.app in after_start start_error (in_app started r)

    -- The service, which is told apart by the name that it runs under.
    unfoldable pub run_service : Bytes → Process A Current → Exit × Process A Current
    unfolding run_and_block
    run_service name r =
        let (failure, after) = run_and_block (S.service_run name) (new_wrapper r) in
        (
          returned failure,
          record {
            app = after.app;
            log_flags = r.log_flags;
            log_output = r.log_output;
            event_logs = r.event_logs;
            reports = after.reports;
            stops = after.stops;
          },
        )

    -- The event log and the flags are set, and reset by the deferred calls.
    logged : LogConfig → Option Bytes → Process A Current → Exit × Process A Current
    unfolding event_log_flags run_service
    logged config (some e) r = (returned (some e), r)
    logged config none r =
        finish (λ after. set_flags r.log_flags (set_output to_stderr one_less after))
          (run_service (S.windows_daemon_id r.app)
            (set_output to_event_log suc (set_flags (event_log_flags config) r)))

    by_session : LogConfig → Result Bool → Process A Current → Exit × Process A Current
    unfolding run_interactive logged run_service
    by_session config (err e) r = (returned (some e), r)
    by_session config (ok true) r = run_interactive r
    by_session config (ok false) r =
        if config.use_native_logger
        then logged config (S.open_event_log r.app (S.windows_daemon_id r.app)) r
        else run_service (S.windows_daemon_id r.app) r

    -- `windowsDaemonizer.RunUntilExit`
    unfoldable pub windows_run : LogConfig → Process A Current → Exit × Process A Current
    unfolding by_session
    windows_run config r = by_session config (S.is_interactive r.app) r
