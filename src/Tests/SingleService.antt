-- ===== src/Tests/SingleService.antt =====
-- A Windows machine of one service, which can be started and stopped.
use cyberdaemon.Prelude.{
  Bool, true, false, [], Option, none, some, Bytes, codes, Result, ok, err, ◌≡◌, refl,
}
use cyberdaemon.Text.Decimal.{decimal, decimal_int}
use cyberdaemon.ServiceManager.{
  Machine, ServiceState, svc_stopped, svc_stop_pending, svc_running, ticked, timed_out,
  start_automatic,
}
use cyberdaemon.ServiceManager
use cyberdaemon.ServiceManager.Laws as ServiceManagerLaws
use cyberdaemon.Control.ServiceStop.{stop_and_wait}
use cyberdaemon.Control.ServiceStop.Waiting.{stop_and_wait-ok_iff}
use cyberdaemon.Control.Windows.{not_installed_err}

-- The one service of a machine: it is not registered, not running, or running.
pub data Single : Type 0 where
  absent idle active : Single

abbrev pub ready_known : Single → Bytes → Bool
ready_known absent name = false
ready_known idle name = true
ready_known active name = true

abbrev open_single : Single → Bytes → Result Bytes
open_single absent name = err not_installed_err
open_single idle name = ok name
open_single active name = ok name

abbrev query_single : Single → ServiceState
query_single absent = svc_stopped
query_single idle = svc_stopped
query_single active = svc_running

-- A service that does not run refuses the request.
abbrev stop_single : Single → Single × Result ServiceState
stop_single absent = (absent, err (codes "The service has not been started."))
stop_single idle = (idle, err (codes "The service has not been started."))
stop_single active = (idle, ok svc_stopped)

abbrev start_single : Single → Single × Option Bytes
start_single absent = (absent, some (codes "The service is marked for deletion."))
start_single idle = (active, none)
start_single active = (active, some (codes "The service is running already."))

-- A service that runs is only marked.
abbrev delete_single : Single → Single
delete_single absent = absent
delete_single idle = absent
delete_single active = active

-- A machine of one service.
abbrev pub ready_machine : Machine
ready_machine = record {
  State = Single;
  Service = Bytes;
  connect = λ s. none;
  open_service = open_single;
  create_service = λ s name exe_path config args. (idle, ok name);
  query = λ s service. ok (query_single s);
  control_stop = λ s service. stop_single s;
  start = λ s service. start_single s;
  delete = λ s service. (delete_single s, none);
  install_source = λ s src. (s, none);
  remove_source = λ s src. (s, none);
  open_key = λ s path. none;
  get_string_value = λ s path name. ok (decimal 5000);
  wakes = λ s period timer. timed_out s;
  duration_string = decimal_int;
}

opened_known :
    (s : Single) (name h : Bytes)
    → open_single s name ≡ ok h
    → (ready_known s name ≡ true) × (h ≡ name)
opened_known absent name h e = cc
opened_known idle name h e = (refl, cc)
opened_known active name h e = (refl, cc)

missing_known :
    (s : Single) (name : Bytes)
    → open_single s name ≡ err not_installed_err
    → ready_known s name ≡ false
missing_known absent name e = refl
missing_known idle name e = cc
missing_known active name e = cc

started_known :
    (s : Single) (name : Bytes) → ready_known (start_single s).0 name ≡ ready_known s name
started_known absent name = refl
started_known idle name = refl
started_known active name = refl

stopped_known :
    (s : Single) (name : Bytes) → ready_known (stop_single s).0 name ≡ ready_known s name
stopped_known absent name = refl
stopped_known idle name = refl
stopped_known active name = refl

deleted_known :
    (s : Single) (name : Bytes)
    → ◌≡◌ {A = Result ServiceState} (ok (query_single s)) (ok svc_stopped)
    → ready_known (delete_single s) name ≡ false
deleted_known absent name h = refl
deleted_known idle name h = refl
deleted_known active name h = cc

stopped_query :
    (s : Single)
    → (stop_single s).1 ≡ ok svc_stopped
    → ◌≡◌ {A = Result ServiceState} (ok (query_single (stop_single s).0)) (ok svc_stopped)
stopped_query absent h = cc
stopped_query idle h = cc
stopped_query active h = refl

pub ready-IsLawful :
    ServiceManagerLaws.IsLawful ready_machine not_installed_err ready_known (λ h. h)
ready-IsLawful = record {
  open-known = λ s name h e. (opened_known s name h e).0;
  open-missing = λ s name e. missing_known s name e;
  open-name = λ s name h e. (opened_known s name h e).1;
  create-known = λ s name exe_path config args h e. refl;
  start-known = λ s h name. started_known s name;
  control_stop-known = λ s h name. stopped_known s name;
  install_source-known = λ s src name. refl;
  remove_source-known = λ s src name. refl;
  wakes-known = λ s period timer name. refl;
  delete-stopped = λ s h stopped accepted. deleted_known s h stopped;
  control_stop-stopped = λ s h e. stopped_query s e;
}

-- A service that runs stops at once, and the request to another one fails and leaves it stopped.
ready_stops_from :
    (state : Single) (w : ServiceManager.World ready_machine) (s e : Bytes)
    → w.state ≡ state
    → (stop_and_wait ready_machine s w).0 ≡ err e
    → ready_machine.query (stop_and_wait ready_machine s w).1.state s ≡ ok svc_stopped
unfolding stop_and_wait
ready_stops_from absent w s e h k = rw h refl
ready_stops_from idle w s e h k = rw h refl
ready_stops_from active w s e h k =
    let done : (stop_and_wait ready_machine s w).0 ≡ ok tt =
      (stop_and_wait-ok_iff ready_machine s w).1 (
        svc_stopped,
        (rw h refl, record { before = []; after = []; splits = refl; pending = tt }),
      ) in
    absurd (cc (done, k))

pub ready_stops :
    (w : ServiceManager.World ready_machine) (s e : Bytes)
    → (stop_and_wait ready_machine s w).0 ≡ err e
    → ready_machine.query (stop_and_wait ready_machine s w).1.state s ≡ ok svc_stopped
ready_stops w s e = ready_stops_from w.state w s e refl
