-- ===== src/Control/Systemd.antt =====
-- control/controller_systemd_linux.go. `unit.Serialize` of github.com/coreos/go-systemd is the
-- parameter `serialize`.
pub mod Installing
pub mod Statuses
pub mod Faithful
pub mod Settings
use cyberdaemon.Prelude.{
  ℕ, Bool, true, false, not, List, [], ◌∷◌, ◌++◌, Option, none, some, Bytes, codes, bytes_eq,
  Result, ok, err, if◌then◌else◌, map_err,
}
use cyberdaemon.Prelude.Int.{ℤ, pos, int_eq}
use mathlib.Core.Option
use cyberdaemon.Os.{
  Os, World, User, Action, pure, raise, lift, try, ignore_error, check, ◌>>=◌, ◌>>◌, stat,
  write_file, remove, current_user, is_file,
}
use cyberdaemon.Osutil.{CliResult, run_daemon_cli}
use cyberdaemon.Control.Lsb.{status_of_result}
use cyberdaemon.Control.{
  Status, running, stopped, stopped_dead, unknown, not_installed, start_immediately, start_on_load,
  StartType, ControllerConfig, Controller, validate, arguments_as_string, is_empty, lookup_option,
}

abbrev pub user_argument : Bytes
user_argument = codes "--user"

abbrev pub daemon_reload_command : Bytes
daemon_reload_command = codes "daemon-reload"

-- control/options_unix.go
abbrev pub run_only_when_logged_in : Bytes
run_only_when_logged_in = codes "run_only_when_logged_in"

pub record SystemdController : Type 0 where
  pub systemctl_path : Bytes
  pub daemon_id : Bytes
  pub unit_file_path : Bytes
  pub unit_contents : Bytes
  pub add_user_arg : Bool
  pub start_type : StartType

-- `var args []string; if o.addUserArg { args = append(args, userArgument) }`, and what is appended.
unfoldable pub with_user_arg : SystemdController → List Bytes → List Bytes
with_user_arg o args = if o.add_user_arg then user_argument ∷ args else args

pub record UnitOption : Type 0 where
  pub section : Bytes
  pub name : Bytes
  pub value : Bytes

abbrev option : Bytes → Bytes → Bytes → UnitOption
option section name value = record { section = section; name = name; value = value }

unfoldable pub exec_start : ControllerConfig → Bytes
exec_start config = elim (config.arguments) [
  | [] ↦ config.exe_path
  | _ ↦ config.exe_path ++ (codes " " ++ arguments_as_string config)
]

-- The options of the unit, `User` last where it is given.
unfoldable pub unit_options : ControllerConfig → Bool → List UnitOption
unfolding exec_start
unit_options config add_user =
    option (codes "Unit") (codes "Description") config.description
    ∷ option (codes "Service") (codes "Type") (codes "simple")
    ∷ option (codes "Service") (codes "ExecStart") (exec_start config)
    ∷ option (codes "Service") (codes "Restart") (codes "on-failure")
    ∷ option (codes "Install") (codes "WantedBy") (codes "multi-user.target")
    ∷ (if add_user then option (codes "Service") (codes "User") config.run_as ∷ [] else [])

pub record RunSettings : Type 0 where
  pub add_user_to_unit : Bool
  pub unit_file_path : Bytes
  pub specify_user_arg : Bool

unfoldable pub default_unit_path : ControllerConfig → Bytes
default_unit_path config = codes "/etc/systemd/system/" ++ config.daemon_id ++ codes ".service"

unfoldable pub user_unit_path : ControllerConfig → User → Bytes
user_unit_path config current =
    current.home_dir ++ codes "/.config/systemd/user/" ++ config.daemon_id ++ codes ".service"

-- What follows the look-up of the current user in `runSettings`.
unfoldable pub settings_for_user : ControllerConfig → User → Result RunSettings
settings_for_user config current =
    elim (lookup_option run_only_when_logged_in config.system_specific_options) [
      | some v ↦
          if bytes_eq config.run_as current.username
          then ok (record {
            add_user_to_unit = false;
            unit_file_path = user_unit_path config current;
            specify_user_arg = true;
          })
          else err (
              codes "the '"
              ++ run_only_when_logged_in
              ++ codes "' option cannot be used when the curret user is not the RunAs user")
      | none ↦ ok (record {
        add_user_to_unit = true;
        unit_file_path = default_unit_path config;
        specify_user_arg = false;
      })
    ]

module _ (O : Os) where
  -- `_, _, err := RunDaemonCli(...); if err != nil { return err }`
  unfoldable pub systemctl : SystemdController → List Bytes → Action O (Unit {0})
  unfolding run_daemon_cli
  systemctl o args = do r ← run_daemon_cli O o.systemctl_path args; check r.failure

  query_status : SystemdController → Action O Status
  unfolding run_daemon_cli
  query_status o = do
    r ← run_daemon_cli O o.systemctl_path (with_user_arg o (codes "status" ∷ o.daemon_id ∷ []))
    pure (status_of_result r)

  -- `systemdController.Status`
  unfoldable pub status : SystemdController → Action O Status
  unfolding query_status status_of_result with_user_arg
  status o = do
    info ← stat O o.unit_file_path
    if is_file info then query_status o else pure not_installed

  -- `systemdController.Start`
  unfoldable pub start : SystemdController → Action O (Unit {0})
  unfolding systemctl with_user_arg
  start o = systemctl o (with_user_arg o (codes "start" ∷ o.daemon_id ∷ []))

  -- `systemdController.Stop`
  unfoldable pub stop : SystemdController → Action O (Unit {0})
  unfolding systemctl with_user_arg
  stop o = systemctl o (with_user_arg o (codes "stop" ∷ o.daemon_id ∷ []))

  write_unit : SystemdController → Action O (Unit {0})
  write_unit o = do
    failure ← write_file O o.unit_file_path o.unit_contents 0o644
    check (Option.map (λ e. codes "failed to write systemd unit file - " ++ e) failure)

  enable : SystemdController → Action O (Unit {0})
  unfolding systemctl with_user_arg
  enable o = systemctl o (with_user_arg o (codes "enable" ∷ o.daemon_id ∷ []))

  reload : SystemdController → Action O (Unit {0})
  unfolding systemctl with_user_arg
  reload o = systemctl o (with_user_arg o (daemon_reload_command ∷ []))

  -- The switch of `Install`; the case `StartImmediately` falls through to the next.
  by_start_type : SystemdController → Action O (Unit {0})
  unfolding enable reload start
  by_start_type o =
      if bytes_eq o.start_type start_immediately
      then (do reload o; start o; enable o)
      else if bytes_eq o.start_type start_on_load
      then enable o
      else pure tt

  -- `systemdController.Install`
  unfoldable pub install : SystemdController → Action O (Unit {0})
  unfolding write_unit by_start_type
  install o = do write_unit o; by_start_type o

  -- `systemdController.Uninstall`; the error of `Stop` is not looked at.
  unfoldable pub uninstall : SystemdController → Action O (Unit {0})
  unfolding stop reload
  uninstall o = do
    ignore_error (stop o)
    failure ← remove O o.unit_file_path
    check failure
    reload o

  -- `runSettings`
  unfoldable pub run_settings : ControllerConfig → Action O RunSettings
  unfolding settings_for_user is_empty
  run_settings config =
      if is_empty config.run_as
      then pure (record {
        add_user_to_unit = false;
        unit_file_path = default_unit_path config;
        specify_user_arg = false;
      })
      else do
        current ← try (current_user O)
        user ← lift (map_err (λ e. codes "failed to get current user - " ++ e) current)
        lift (settings_for_user config user)

  module _ (serialize : List UnitOption → Result Bytes) where
    -- `newSystemdController`
    unfoldable pub new_systemd_controller : ControllerConfig → Bytes → Action O SystemdController
    unfolding run_settings unit_options validate
    new_systemd_controller config systemctl_path = do
      lift (validate config)
      settings ← run_settings config
      contents ← lift (
          map_err (λ e. codes "failed to read from unit reader - " ++ e)
            (serialize (unit_options config settings.add_user_to_unit)))
      pure (record {
        systemctl_path = systemctl_path;
        daemon_id = config.daemon_id;
        unit_file_path = settings.unit_file_path;
        unit_contents = contents;
        add_user_arg = settings.specify_user_arg;
        start_type = config.start_type;
      })

  -- The controller behind the interface.
  unfoldable pub controller : SystemdController → Controller (World O)
  controller o = record {
    status = status o;
    install = install o;
    uninstall = uninstall o;
    start = start o;
    stop = stop o;
  }
