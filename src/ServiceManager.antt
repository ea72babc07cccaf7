-- ===== src/ServiceManager.antt =====
-- A Windows machine below the program: the calls of `mgr`, `svc`, `eventlog` and `registry` of
-- golang.org/x/sys/windows, and the clock, as an interface over an unknown state. `World` adds to
-- that state a journal of the calls that change something, the latest first, and the handles that
-- the program holds.
pub mod Releasing
pub mod Laws
use cyberdaemon.Prelude.{
  ℕ, suc, one_less, List, ◌∷◌, Option, none, some, Bytes, Result, ok, err, Effect,
}
use cyberdaemon.Prelude.Int.{ℤ}

-- `svc.State`, with the states that the code names.
pub data ServiceState : Type 0 where
  svc_stopped svc_start_pending svc_stop_pending svc_running : ServiceState
  svc_continue_pending svc_pause_pending svc_paused : ServiceState
  svc_other : ℕ → ServiceState

-- `mgr.StartAutomatic` and `mgr.StartManual`
pub data WinStartType : Type 0 where
  start_automatic start_manual : WinStartType

-- `mgr.Config`, with the fields that the code sets.
pub record ServiceConfig : Type 0 where
  pub display_name : Bytes
  pub description : Bytes
  pub start_type : WinStartType
  pub service_start_name : Bytes
  pub password : Bytes

-- What a `select` over a ticker and a timer gives, one time after the other, each with the state in
-- which the machine is by then. The timer fires sooner or later, and then `select` comes to take it.
pub data Wakes (State : Type 0) : Type 0 where
  ticked : State → Wakes State → Wakes State
  timed_out : State → Wakes State

pub record Machine : Type 1 where
  pub State : Type 0
  -- `*mgr.Service`
  pub Service : Type 0
  -- `mgr.Connect()`
  pub connect : State → Option Bytes
  -- `m.OpenService(name)`
  pub open_service : State → Bytes → Result Service
  -- `m.CreateService(name, exe_path, config, args...)`
  pub create_service : State → Bytes → Bytes → ServiceConfig → List Bytes → State × Result Service
  -- `s.Query()`, the state of it
  pub query : State → Service → Result ServiceState
  -- `s.Control(svc.Stop)`, the state of its status
  pub control_stop : State → Service → State × Result ServiceState
  -- `s.Start()`
  pub start : State → Service → State × Option Bytes
  -- `s.Delete()`
  pub delete : State → Service → State × Option Bytes
  -- `eventlog.InstallAsEventCreate(src, eventlog.Error|eventlog.Warning|eventlog.Info)`
  pub install_source : State → Bytes → State × Option Bytes
  -- `eventlog.Remove(src)`
  pub remove_source : State → Bytes → State × Option Bytes
  -- `registry.OpenKey(registry.LOCAL_MACHINE, path, registry.READ)`
  pub open_key : State → Bytes → Option Bytes
  -- `key.GetStringValue(name)` of that key
  pub get_string_value : State → Bytes → Bytes → Result Bytes
  -- the wakes of a `time.NewTicker` and a `time.After`, by their durations in nanoseconds
  pub wakes : State → ℤ → ℤ → Wakes State
  -- `d.String()` of a `time.Duration`
  pub duration_string : ℤ → Bytes

-- The calls that change the machine, whether they succeed or not.
pub data Call (Service : Type 0) : Type 0 where
  created : Bytes → Bytes → ServiceConfig → List Bytes → Call Service
  started stop_requested deleted : Service → Call Service
  source_installed source_removed : Bytes → Call Service

-- How many handles of each kind are held.
pub record Handles : Type 0 where
  pub managers : ℕ
  pub services : ℕ
  pub keys : ℕ
  pub tickers : ℕ

pub record World (M : Machine) : Type 0 where
  pub state : M.State
  pub journal : List (Call M.Service)
  pub held : Handles

abbrev pub Task : Machine → Type 0 → Type 0
Task M A = Effect (World M) A

-- `defer f()`, in front of the rest of the function.
abbrev pub finally : {W A : Type 0} → (W → W) → Effect W A → Effect W A
finally f m w = ((m w).0, f (m w).1)

module _ {M : Machine} where
  abbrev pub with_held : (Handles → Handles) → World M → World M
  with_held f w = record { state = w.state; journal = w.journal; held = f w.held }

  -- The machine is in another state by now.
  abbrev pub in_state : M.State → World M → World M
  in_state s w = record { state = s; journal = w.journal; held = w.held }

  abbrev pub called : Call M.Service → M.State → World M → World M
  called c s w = record { state = s; journal = c ∷ w.journal; held = w.held }

abbrev pub add_manager : Handles → Handles
add_manager h = record {
  managers = suc h.managers;
  services = h.services;
  keys = h.keys;
  tickers = h.tickers;
}

abbrev pub drop_manager : Handles → Handles
drop_manager h = record {
  managers = one_less h.managers;
  services = h.services;
  keys = h.keys;
  tickers = h.tickers;
}

abbrev pub add_service : Handles → Handles
add_service h = record {
  managers = h.managers;
  services = suc h.services;
  keys = h.keys;
  tickers = h.tickers;
}

abbrev pub drop_service : Handles → Handles
drop_service h = record {
  managers = h.managers;
  services = one_less h.services;
  keys = h.keys;
  tickers = h.tickers;
}

abbrev pub add_key : Handles → Handles
add_key h = record {
  managers = h.managers;
  services = h.services;
  keys = suc h.keys;
  tickers = h.tickers;
}

abbrev pub add_ticker : Handles → Handles
add_ticker h = record {
  managers = h.managers;
  services = h.services;
  keys = h.keys;
  tickers = suc h.tickers;
}

abbrev pub drop_ticker : Handles → Handles
drop_ticker h = record {
  managers = h.managers;
  services = h.services;
  keys = h.keys;
  tickers = one_less h.tickers;
}

module _ (M : Machine) where
  unfoldable pub connect_result : Option Bytes → Task M (Unit {0})
  connect_result none w = (ok tt, with_held add_manager w)
  connect_result (some e) w = (err e, w)

  abbrev pub connect : Task M (Unit {0})
  unfolding connect_result
  connect w = connect_result (M.connect w.state) w

  unfoldable pub service_result : Result M.Service → Task M M.Service
  service_result (ok s) w = (ok s, with_held add_service w)
  service_result (err e) w = (err e, w)

  abbrev pub open_service : Bytes → Task M M.Service
  unfolding service_result
  open_service name w = service_result (M.open_service w.state name) w

  abbrev pub create_service : Bytes → Bytes → ServiceConfig → List Bytes → Task M M.Service
  unfolding service_result
  create_service name exe_path config args w =
      let (s, result) = M.create_service w.state name exe_path config args in
      service_result result (called (created name exe_path config args) s w)

  abbrev pub query : M.Service → Task M ServiceState
  query s w = (M.query w.state s, w)

  abbrev pub control_stop : M.Service → Task M ServiceState
  control_stop s w =
      let (t, result) = M.control_stop w.state s in (result, called (stop_requested s) t w)

  abbrev pub start : M.Service → Task M (Option Bytes)
  start s w = let (t, failure) = M.start w.state s in (ok failure, called (started s) t w)

  abbrev pub delete : M.Service → Task M (Option Bytes)
  delete s w = let (t, failure) = M.delete w.state s in (ok failure, called (deleted s) t w)

  abbrev pub install_source : Bytes → Task M (Option Bytes)
  install_source src w =
      let (t, failure) = M.install_source w.state src in
      (ok failure, called (source_installed src) t w)

  abbrev pub remove_source : Bytes → Task M (Option Bytes)
  remove_source src w =
      let (t, failure) = M.remove_source w.state src in
      (ok failure, called (source_removed src) t w)

  unfoldable pub key_result : Option Bytes → Task M (Unit {0})
  key_result none w = (ok tt, with_held add_key w)
  key_result (some e) w = (err e, w)

  abbrev pub open_key : Bytes → Task M (Unit {0})
  unfolding key_result
  open_key path w = key_result (M.open_key w.state path) w

  abbrev pub get_string_value : Bytes → Bytes → Task M Bytes
  get_string_value path name w = (M.get_string_value w.state path name, w)
