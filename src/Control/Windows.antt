-- ===== src/Control/Windows.antt =====
-- control/controller_windows.go, over the machine of ServiceManager.antt.
pub mod Releasing
pub mod Installing
pub mod Registering
pub mod Faithful
use cyberdaemon.Prelude.{
  not, [], ◌++◌, Option, none, some, Bytes, codes, bytes_eq, Result, ok, err, if◌then◌else◌,
  map_err, Option, pure, raise, lift, try, ignore_error, check, ◌>>=◌, ◌>>◌,
}
use cyberdaemon.ServiceManager.{
  ServiceState, svc_stopped, svc_start_pending, svc_stop_pending, svc_running, svc_continue_pending,
  svc_pause_pending, svc_paused, svc_other, WinStartType, start_automatic, start_manual,
  ServiceConfig, Wakes, ticked, timed_out, Machine, World, Task, finally, with_held, in_state,
  drop_manager, drop_service, add_ticker, drop_ticker, connect, open_service, create_service, query,
  delete, install_source, remove_source, open_key, get_string_value,
}
use cyberdaemon.ServiceManager
use cyberdaemon.Control.ServiceStop.{stop_and_wait}
use cyberdaemon.Control.{
  Status, unknown, running, stopped, starting, stopping, resuming, pausing, paused, not_installed,
  start_immediately, start_on_load, ControllerConfig, OptionValue, get_password, other_value,
  Controller, validate, is_empty, lookup_option,
}

abbrev pub not_installed_err : Bytes
not_installed_err = codes "The specified service does not exist as an installed service."

-- control/options_windows.go
abbrev pub password_option : Bytes
password_option = codes "password"

pub record WindowsController : Type 0 where
  pub config : ControllerConfig
  pub win_start_type : WinStartType

-- The switch of `Status`.
unfoldable pub status_of_state : ServiceState → Status
status_of_state svc_stop_pending = stopping
status_of_state svc_stopped = stopped
status_of_state svc_start_pending = starting
status_of_state svc_running = running
status_of_state svc_continue_pending = resuming
status_of_state svc_pause_pending = pausing
status_of_state svc_paused = paused
status_of_state (svc_other n) = unknown

password_of_value : OptionValue → Result Bytes
password_of_value (get_password r) =
    map_err (λ e. codes "failed to get password when installing daemon - " ++ e) r
password_of_value other_value = err (
    codes "the '"
    ++ password_option
    ++ codes "' option must be a GetPassword function (type assertion failure)")

password_of_option : Option OptionValue → Result Bytes
unfolding password_of_value
password_of_option none = err (
    codes "the '"
    ++ password_option
    ++ codes "' operating system specific option must be specified to run a windows service"
    ++ codes " as a normal user")
password_of_option (some v) = password_of_value v

-- The password with which `Install` creates the service.
unfoldable pub install_password : ControllerConfig → Result Bytes
unfolding password_of_option is_empty
install_password config =
    if not (is_empty config.run_as)
    then password_of_option (lookup_option password_option config.system_specific_options)
    else ok []

-- The `mgr.Config` that `Install` builds.
unfoldable pub service_config : WindowsController → Bytes → ServiceConfig
service_config o password = record {
  display_name = o.config.daemon_id;
  description = o.config.description;
  start_type = o.win_start_type;
  service_start_name = o.config.run_as;
  password = password;
}

-- `NewController`
unfoldable pub new_windows_controller : ControllerConfig → Result WindowsController
unfolding validate
new_windows_controller config = elim (validate config) [
  | err e ↦ err e
  | ok u ↦ ok (record {
    config = config;
    win_start_type =
        if bytes_eq config.start_type start_immediately
        then start_automatic
        else if bytes_eq config.start_type start_on_load
        then start_automatic
        else start_manual;
  })
]

module _ (M : Machine) where
  -- `m, err := mgr.Connect(); if err != nil { return err }; defer m.Disconnect()`, and what follows.
  abbrev with_manager : {A : Type 0} → Task M A → Task M A
  with_manager body = connect M >> finally (with_held drop_manager) body

  -- `defer s.Close()` of a service that was opened, and what follows.
  abbrev with_service : {A : Type 0} → Task M M.Service → (M.Service → Task M A) → Task M A
  with_service opened body = opened >>= λ s. finally (with_held drop_service) (body s)

  status_of_error : Bytes → Task M Status
  status_of_error e = if bytes_eq e not_installed_err then pure not_installed else raise e

  status_of_opened : Result M.Service → Task M Status
  unfolding status_of_error status_of_state
  status_of_opened (err e) = status_of_error e
  status_of_opened (ok s) =
      finally (with_held drop_service) (do state ← query M s; pure (status_of_state state))

  -- `windowsController.Status`
  unfoldable pub status : WindowsController → Task M Status
  unfolding status_of_opened
  status o =
      with_manager (do opened ← try (open_service M o.config.daemon_id); status_of_opened opened)

  -- `if err != nil { s.Delete(); return err }`
  unfoldable pub check_or_delete : M.Service → Option Bytes → Task M (Unit {0})
  check_or_delete s none = pure tt
  check_or_delete s (some e) = do ignore_error (delete M s); raise e

  unfoldable pub start_created : WindowsController → M.Service → Task M (Unit {0})
  unfolding check_or_delete
  start_created o s =
      if bytes_eq o.config.start_type start_immediately
      then (do failure ← ServiceManager.start M s; check_or_delete s failure)
      else pure tt

  -- What follows the creation of the service in `Install`.
  unfoldable pub finish_install : WindowsController → M.Service → Task M (Unit {0})
  unfolding start_created check_or_delete
  finish_install o s = do
    start_created o s
    failure ← install_source M o.config.daemon_id
    check_or_delete s failure

  -- `windowsController.Install`
  unfoldable pub install : WindowsController → Task M (Unit {0})
  unfolding install_password service_config finish_install
  install o = with_manager (do
    password ← lift (install_password o.config)
    with_service
        (create_service M o.config.daemon_id o.config.exe_path (service_config o password)
          o.config.arguments)
        (finish_install o))

  remove_service : WindowsController → M.Service → Task M (Unit {0})
  unfolding stop_and_wait
  remove_service o s = do
    ignore_error (stop_and_wait M s)
    failure ← delete M s
    check failure
    source_failure ← remove_source M o.config.daemon_id
    check source_failure

  -- `windowsController.Uninstall`
  unfoldable pub uninstall : WindowsController → Task M (Unit {0})
  unfolding remove_service
  uninstall o = with_manager (with_service (open_service M o.config.daemon_id) (remove_service o))

  start_service : M.Service → Task M (Unit {0})
  start_service s = do failure ← ServiceManager.start M s; check failure

  -- `windowsController.Start`
  unfoldable pub start : WindowsController → Task M (Unit {0})
  unfolding start_service
  start o = with_manager (with_service (open_service M o.config.daemon_id) start_service)

  -- `windowsController.Stop`
  unfoldable pub stop : WindowsController → Task M (Unit {0})
  unfolding stop_and_wait
  stop o = with_manager (with_service (open_service M o.config.daemon_id) (stop_and_wait M))

  -- The controller behind the interface.
  unfoldable pub controller : WindowsController → Controller (World M)
  controller o = record {
    status = status o;
    install = install o;
    uninstall = uninstall o;
    start = start o;
    stop = stop o;
  }
