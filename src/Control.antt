-- ===== src/Control.antt =====
-- control/common.go: the data that every controller shares, and the execution of commands.
pub mod Commands
pub mod Contract
pub mod Lsb
pub mod Systemd
pub mod Systemv
pub mod Linux
pub mod ServiceStop
pub mod Windows
pub mod Darwin
use cyberdaemon.Prelude.{
  ℕ, Bool, true, false, List, [], ◌∷◌, ◌++◌, Option, none, some, Bytes, codes, bytes_eq, Result, ok,
  err, if◌then◌else◌, map_err, and_then, Effect,
}
use cyberdaemon.Prelude.Int.{ℤ}
use cyberdaemon.Text.Split.{join}

-- The methods return constants only. The `""` beside an error is no value of its own here, since
-- a result is either a status or an error.
pub data Status : Type 0 where
  unknown running stopped stopped_dead starting stopping resuming pausing paused : Status
  not_installed : Status

-- `Status.String`
unfoldable pub status_string : Status → Bytes
status_string unknown = codes "unknown"
status_string running = codes "running"
status_string stopped = codes "stopped"
status_string stopped_dead = codes "stopped_dead"
status_string starting = codes "starting"
status_string stopping = codes "stopping"
status_string resuming = codes "resuming"
status_string pausing = codes "pausing"
status_string paused = codes "paused"
status_string not_installed = codes "not_installed"

-- `Command` and `StartType` are strings, and any string may be given.
abbrev pub Command : Type 0
Command = Bytes

abbrev pub get_status : Command
get_status = codes "status"

abbrev pub start_command : Command
start_command = codes "start"

abbrev pub stop_command : Command
stop_command = codes "stop"

abbrev pub install_command : Command
install_command = codes "install"

abbrev pub uninstall_command : Command
uninstall_command = codes "uninstall"

abbrev pub StartType : Type 0
StartType = Bytes

abbrev pub start_immediately : StartType
start_immediately = codes "start_immediately"

abbrev pub start_on_load : StartType
start_on_load = codes "start_on_load"

abbrev pub manual_start : StartType
manual_start = codes "manual"

-- `cyberdaemon.LogConfig`
pub record LogConfig : Type 0 where
  pub use_native_logger : Bool
  pub native_log_flags : ℤ

-- A value of `interface{}`: a `GetPassword` function, by what it returns, or anything else.
pub data OptionValue : Type 0 where
  get_password : Result Bytes → OptionValue
  other_value : OptionValue

pub record ControllerConfig : Type 0 where
  pub daemon_id : Bytes
  pub description : Bytes
  pub exe_path : Bytes
  pub arguments : List Bytes
  pub run_as : Bytes
  pub start_type : StartType
  pub log_config : LogConfig
  pub system_specific_options : List (Bytes × OptionValue)

-- `v, ok := options[key]`
unfoldable pub lookup_option : Bytes → List (Bytes × OptionValue) → Option OptionValue
lookup_option k [] = none
lookup_option k ((j, v) ∷ options) = if bytes_eq k j then some v else lookup_option k options

-- `len(o.ExePath) == 0`, and so for the other fields that may be left unset.
unfoldable pub is_empty : Bytes → Bool
is_empty [] = true
is_empty (c ∷ s) = false

-- `ControllerConfig.Validate`
unfoldable pub validate : ControllerConfig → Result (Unit {0})
unfolding is_empty
validate config =
    if is_empty config.exe_path
    then err (codes "executable path must be provided to controller config")
    else ok tt

-- `ControllerConfig.argumentsAsString`
unfoldable pub arguments_as_string : ControllerConfig → Bytes
unfolding join
arguments_as_string config = join config.arguments (codes " ")

-- The interface `Controller`.
pub record Controller (W : Type 0) : Type 0 where
  pub status : Effect W Status
  pub install : Effect W (Unit {0})
  pub uninstall : Effect W (Unit {0})
  pub start : Effect W (Unit {0})
  pub stop : Effect W (Unit {0})

unfoldable pub supported_commands : List Command
supported_commands =
    get_status ∷ start_command ∷ stop_command ∷ install_command ∷ uninstall_command ∷ []

unfoldable pub supported_commands_string : Bytes
unfolding supported_commands join
supported_commands_string = codes "'" ++ (join supported_commands (codes "', '") ++ codes "'")

-- The output of a command that succeeds, or its error behind what was tried.
unfoldable pub report : {W A : Type 0} → Bytes → (A → Bytes) → Result A × W → Result Bytes × W
report doing output (r, w) =
    (and_then (map_err (λ e. doing ++ codes " - " ++ e) r) (λ a. ok (output a)), w)

unfoldable pub execute : {W : Type 0} → Command → Controller W → Effect W Bytes
unfolding report
execute command c w =
    if bytes_eq command get_status
    then report (codes "failed to get daemon status") status_string (c.status w)
    else if bytes_eq command start_command
    then report (codes "failed to start daemon") (λ _. []) (c.start w)
    else if bytes_eq command stop_command
    then report (codes "failed to stop daemon") (λ _. []) (c.stop w)
    else if bytes_eq command install_command
    then report (codes "failed to install daemon") (λ _. []) (c.install w)
    else if bytes_eq command uninstall_command
    then report (codes "failed to uninstall daemon") (λ _. []) (c.uninstall w)
    else (err (codes "unknown daemon command '" ++ command ++ codes "'"), w)
