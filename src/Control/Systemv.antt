-- ===== src/Control/Systemv.antt =====
-- control/controller_systemv_linux.go
pub mod Template
pub mod Script
pub mod Installing
pub mod Statuses
pub mod Faithful
use cyberdaemon.Prelude.{
  ℕ, Bool, true, false, List, [], ◌∷◌, ◌++◌, Option, none, some, Bytes, codes, bytes_eq, Result, ok,
  err, if◌then◌else◌,
}
use mathlib.Core.Option
use cyberdaemon.Text.Search.{contains}
use cyberdaemon.Text.Replace.{replace}
use cyberdaemon.Text.FilePath.{join_path}
use cyberdaemon.Os.{
  Os, World, Action, pure, lift, ignore_error, check, ◌>>=◌, ◌>>◌, stat, write_file, remove,
  is_file,
}
use cyberdaemon.Osutil.{run_daemon_cli, chkconfig_path, updatercd_path}
use cyberdaemon.Control.Lsb.{status_of_result}
use cyberdaemon.Control.{
  Status, not_installed, start_immediately, start_on_load, manual_start, StartType, LogConfig,
  ControllerConfig, Controller, validate, arguments_as_string,
}
use Template.{systemv_template}
use cyberdaemon.Control.Systemv.Template.Pieces.{
  Placeholder, service_name, short_description, description, exe_path, arguments, log_file_path,
  pid_file_path, run_as, placeholder_delim, spell,
}
use cyberdaemon.Control.Systemv.Template.Filling.{replacements}

pub record SystemvController : Type 0 where
  pub service_path : Bytes
  pub daemon_id : Bytes
  pub init_contents : Bytes
  pub init_file_path : Bytes
  pub start_type : StartType
  pub is_red_hat : Bool
  pub chkconfig : Bytes
  pub updatercd : Bytes
  pub log_config : LogConfig

-- `defaultPidFilePath`
unfoldable pub default_pid_file_path : Bytes → Bytes
default_pid_file_path name = codes "/var/run/" ++ (name ++ codes ".pid")

-- The path of the log file, which is empty unless the native logger is used.
unfoldable pub log_path : ControllerConfig → Bytes
log_path config =
    if config.log_config.use_native_logger
    then join_path (codes "/var/log" ∷ config.daemon_id ∷ (config.daemon_id ++ codes ".log") ∷ [])
    else []

-- The value of each placeholder.
unfoldable pub script_values : ControllerConfig → Placeholder → Bytes
unfolding log_path
script_values config service_name = config.daemon_id
script_values config short_description = config.daemon_id ++ codes " daemon."
script_values config description = config.description
script_values config exe_path = config.exe_path
script_values config arguments = arguments_as_string config
script_values config run_as = config.run_as
script_values config log_file_path = log_path config
script_values config pid_file_path = default_pid_file_path config.daemon_id

-- `replacer.Replace(systemvTemplate)`
unfoldable pub init_script : ControllerConfig → Bytes
unfolding replace
init_script config = replace (replacements (script_values config)) (spell systemv_template)

-- The test that all placeholders are gone.
unfoldable pub check_script : Bytes → Result Bytes
unfolding contains
check_script script =
    if contains script placeholder_delim
    then err (codes "failed to replace all placeholders in daemon init.d script")
    else ok script

module _ (O : Os) where
  -- `_, _, err := RunDaemonCli(...); if err != nil { return err }`
  unfoldable pub cli : Bytes → List Bytes → Action O (Unit {0})
  unfolding run_daemon_cli
  cli exe args = do r ← run_daemon_cli O exe args; check r.failure

  query_status : SystemvController → Action O Status
  unfolding run_daemon_cli
  query_status o = do
    r ← run_daemon_cli O o.service_path (o.daemon_id ∷ codes "status" ∷ [])
    pure (status_of_result r)

  -- `systemvController.Status`
  unfoldable pub status : SystemvController → Action O Status
  unfolding query_status
  status o = do
    info ← stat O o.init_file_path
    if is_file info then query_status o else pure not_installed

  -- `systemvController.Start`
  unfoldable pub start : SystemvController → Action O (Unit {0})
  unfolding cli
  start o = cli o.service_path (o.daemon_id ∷ codes "start" ∷ [])

  -- `systemvController.Stop`
  unfoldable pub stop : SystemvController → Action O (Unit {0})
  unfolding cli
  stop o = cli o.service_path (o.daemon_id ∷ codes "stop" ∷ [])

  write_script : SystemvController → Action O (Unit {0})
  write_script o = do
    failure ← write_file O o.init_file_path o.init_contents 0o755
    check (Option.map (λ e. codes "failed to write init.d script file - " ++ e) failure)

  enable : SystemvController → Action O (Unit {0})
  unfolding cli
  enable o =
      if o.is_red_hat
      then cli o.chkconfig (o.daemon_id ∷ codes "on" ∷ [])
      else cli o.updatercd (o.daemon_id ∷ codes "defaults" ∷ [])

  disable : SystemvController → Action O (Unit {0})
  unfolding cli
  disable o =
      if o.is_red_hat
      then cli o.chkconfig (o.daemon_id ∷ codes "off" ∷ [])
      else cli o.updatercd (o.daemon_id ∷ codes "disable" ∷ [])

  -- The switch of `Install`; the case `StartImmediately` falls through to the next, and a start
  -- type that is none of the three has no case.
  by_start_type : SystemvController → Action O (Unit {0})
  unfolding enable disable start
  by_start_type o =
      if bytes_eq o.start_type start_immediately
      then (do start o; enable o)
      else if bytes_eq o.start_type start_on_load
      then enable o
      else if bytes_eq o.start_type manual_start
      then disable o
      else pure tt

  -- `systemvController.Install`
  unfoldable pub install : SystemvController → Action O (Unit {0})
  unfolding write_script by_start_type
  install o = do write_script o; by_start_type o

  -- `systemvController.Uninstall`; the error of `Stop` is not looked at.
  unfoldable pub uninstall : SystemvController → Action O (Unit {0})
  unfolding stop
  uninstall o = do ignore_error (stop o); failure ← remove O o.init_file_path; check failure

  -- `newSystemvController`
  unfoldable pub new_systemv_controller :
      ControllerConfig → Bytes → Bool → Action O SystemvController
  unfolding validate check_script
  new_systemv_controller config service_exe_path is_red_hat = do
    lift (validate config)
    script ← lift (check_script (init_script config))
    tool ← if is_red_hat then chkconfig_path O else updatercd_path O
    pure (record {
      service_path = service_exe_path;
      daemon_id = config.daemon_id;
      init_contents = script;
      init_file_path = codes "/etc/init.d/" ++ config.daemon_id;
      start_type = config.start_type;
      is_red_hat = is_red_hat;
      chkconfig = tool;
      updatercd = tool;
      log_config = config.log_config;
    })

  -- The controller behind the interface.
  unfoldable pub controller : SystemvController → Controller (World O)
  controller o = record {
    status = status o;
    install = install o;
    uninstall = uninstall o;
    start = start o;
    stop = stop o;
  }
