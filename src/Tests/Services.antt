-- ===== src/Tests/Services.antt =====
-- Windows services at work.
use cyberdaemon.Prelude.{ℕ, true, List, [], ◌∷◌, ◌++◌, ◌≡◌, refl, Option, none, some, Bytes, codes}
use cyberdaemon.Daemon.Windows.{
  Application, Wrapper, Request, interrogate, stop, shutdown, other, start_pending, stop_pending,
  accepting, current, execute,
}
use cyberdaemon.Daemon.Windows.Serving.{execute-stopped}
use cyberdaemon.Prelude.{true, false, ok}
use cyberdaemon.Prelude.Int.{pos}
use cyberdaemon.Control.{LogConfig}
use cyberdaemon.Daemon.{returned}
use cyberdaemon.Daemon.WindowsRun.{Session, Process, to_other, windows_run}
use cyberdaemon.Daemon.WindowsRun.Restoring.{Restored, windows_run-Restored, windows_run-stopped}

-- An application that starts, or not, and that fails to stop.
abbrev app : Option Bytes → Application
app start_error = record {
  State = ℕ;
  start = λ s. (s, start_error);
  stop = λ s. (s, some (codes "busy"));
}

abbrev fresh : {start_error : Option Bytes} → Wrapper (app start_error) ℕ
fresh = record { app = 0; last_err = some (codes "old"); reports = []; stops = 0 }

abbrev requests : List (Request ℕ)
requests = interrogate 4 ∷ other ∷ interrogate 7 ∷ []

-- The service answers twice and stops once, although two requests ask for it.
execute-stopped_example :
    ((execute {A = app none} (requests ++ stop ∷ shutdown ∷ []) fresh).0 ≡ some (true, 2))
    × ((execute {A = app none} (requests ++ stop ∷ shutdown ∷ []) fresh).1.last_err
        ≡ some (codes "busy"))
    × ((execute {A = app none} (requests ++ stop ∷ shutdown ∷ []) fresh).1.reports
        ≡ stop_pending ∷ current 7 ∷ current 4 ∷ accepting ∷ start_pending ∷ [])
    × ((execute {A = app none} (requests ++ stop ∷ shutdown ∷ []) fresh).1.stops ≡ 1)
execute-stopped_example =
    execute-stopped {A = app none} requests (shutdown ∷ []) stop fresh (tt, (tt, (tt, tt))) tt refl

-- A session of the service manager, whose `svc.Run` serves the requests.
abbrev served :
    {start_error : Option Bytes} → List (Request ℕ) → Option Bytes → Session (app start_error) ℕ
served requests run_err = record {
  is_interactive = λ s. ok false;
  await_interrupt = λ s. none;
  windows_daemon_id = λ s. codes "fw";
  open_event_log = λ s name. none;
  service_run = λ name v. ((execute requests v).1, run_err);
}

abbrev process : {start_error : Option Bytes} → Process (app start_error) ℕ
process = record {
  app = 0;
  log_flags = pos 3;
  log_output = to_other;
  event_logs = 0;
  reports = [];
  stops = 0;
}

abbrev native : LogConfig
native = record { use_native_logger = true; native_log_flags = pos 2 }

windows_run-Restored_example :
    Restored
      (process {start_error = none})
      (windows_run (served (requests ++ stop ∷ []) none) native process).1
windows_run-Restored_example =
    windows_run-Restored (served (requests ++ stop ∷ []) none) native process

windows_run-stopped_example :
    (windows_run {A = app none}
      (served (requests ++ shutdown ∷ []) (some (codes "run")))
      native
      process).0
    ≡ returned (some (codes "busy"))
windows_run-stopped_example =
    windows_run-stopped {A = app none} (served (requests ++ shutdown ∷ []) (some (codes "run")))
      native requests [] shutdown (some (codes "run")) process refl (λ h. refl) refl
      (tt, (tt, (tt, tt))) tt refl
