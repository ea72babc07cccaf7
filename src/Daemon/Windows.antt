-- ===== src/Daemon/Windows.antt =====
-- daemon_windows.go: the service that the Windows service manager drives. `svc` is
-- golang.org/x/sys/windows/svc; of its change requests and states those are named here that the
-- code names, and a request of another kind is `other`.
pub mod Serving
use cyberdaemon.Prelude.{ℕ, suc, Bool, true, false, List, [], ◌∷◌, Option, none, some, Bytes}

-- A state that is reported to the service manager.
pub data Report (Current : Type 0) : Type 0 where
  start_pending stop_pending : Report Current
  -- `svc.Running`, with stop and shutdown accepted
  accepting : Report Current
  -- the state that the service manager itself sent along with `svc.Interrogate`
  current : Current → Report Current

pub data Request (Current : Type 0) : Type 0 where
  interrogate : Current → Request Current
  stop shutdown other : Request Current

-- The caller's application, as in application_windows.go.
pub record Application : Type 1 where
  pub State : Type 0
  pub start : State → State × Option Bytes
  pub stop : State → State × Option Bytes

-- `serviceWrapper`, with what it has reported, the latest first, and how often `Stop` was called.
pub record Wrapper (A : Application) (Current : Type 0) : Type 0 where
  pub app : A.State
  pub last_err : Option Bytes
  pub reports : List (Report Current)
  pub stops : ℕ

-- The result of `Execute`, if it comes to one: whether the code is the service's own, and the code.
abbrev pub Outcome : Type 0
Outcome = Option (Bool × ℕ)

-- `if first != nil { return first }`, in front of `return second`.
abbrev pub first_error : Option Bytes → Option Bytes → Option Bytes
first_error (some e) second = some e
first_error none second = second

module _ {A : Application} {Current : Type 0} where
  abbrev pub report : Report Current → Wrapper A Current → Wrapper A Current
  report state o = record {
    app = o.app;
    last_err = o.last_err;
    reports = state ∷ o.reports;
    stops = o.stops;
  }

  -- `setStartStopError`; the mutex makes it one step.
  unfoldable pub set_start_stop_error : Option Bytes → Wrapper A Current → Wrapper A Current
  set_start_stop_error e o = record {
    app = o.app;
    last_err = e;
    reports = o.reports;
    stops = o.stops;
  }

  stop_result : Option Bytes → Wrapper A Current → Outcome × Wrapper A Current
  unfolding set_start_stop_error
  stop_result (some e) o = (some (true, 2), set_start_stop_error (some e) o)
  stop_result none o = (some (false, 0), o)

  -- The case of `svc.Stop` and `svc.Shutdown`.
  unfoldable pub stop_app : Wrapper A Current → Outcome × Wrapper A Current
  unfolding stop_result
  stop_app o =
      let (s, failure) = A.stop o.app in
      stop_result failure (record {
        app = s;
        last_err = o.last_err;
        reports = stop_pending ∷ o.reports;
        stops = suc o.stops;
      })

  -- The loop, over the requests that ever come. Where they end, it waits.
  unfoldable pub serve_requests :
      List (Request Current) → Wrapper A Current → Outcome × Wrapper A Current
  unfolding stop_app
  serve_requests [] o = (none, o)
  serve_requests (interrogate status ∷ rest) o = serve_requests rest (report (current status) o)
  serve_requests (stop ∷ rest) o = stop_app o
  serve_requests (shutdown ∷ rest) o = stop_app o
  serve_requests (other ∷ rest) o = serve_requests rest o

  start_result :
      List (Request Current) → Option Bytes → Wrapper A Current → Outcome × Wrapper A Current
  unfolding set_start_stop_error serve_requests
  start_result requests (some e) o = (some (true, 1), set_start_stop_error (some e) o)
  start_result requests none o = serve_requests requests (report accepting o)

  -- `serviceWrapper.Execute`
  unfoldable pub execute : List (Request Current) → Wrapper A Current → Outcome × Wrapper A Current
  unfolding start_result
  execute requests o =
      let (s, failure) = A.start o.app in
      start_result requests failure (record {
        app = s;
        last_err = o.last_err;
        reports = start_pending ∷ o.reports;
        stops = o.stops;
      })

  -- `serviceWrapper.runAndBlock`, where `service_run` is what `svc.Run` makes of the wrapper: the
  -- wrapper that it leaves, and its own error.
  unfoldable pub run_and_block :
      (Wrapper A Current → Wrapper A Current × Option Bytes)
      → Wrapper A Current
      → Option Bytes × Wrapper A Current
  unfolding set_start_stop_error
  run_and_block service_run o =
      let (after, run_err) = service_run (set_start_stop_error none o) in
      (first_error after.last_err run_err, after)
