-- ===== src/Filewriter/Program.antt =====
-- `main` of examples/filewriter/main.go and `Start` of its application. `flag`, `os.Executable`, the
-- working directory's calls, the environment and the daemonizer are parameters.
pub mod Commands
use cyberdaemon.Prelude.{
  ℕ, Bool, true, false, List, [], ◌∷◌, ◌++◌, Option, none, some, Bytes, codes, bytes_eq, Result, ok,
  err, if◌then◌else◌, Effect, check, lift, ◌>>=◌, ◌>>◌,
}
use cyberdaemon.Prelude.Int.{pos}
use cyberdaemon.Text.FilePath.{join_path}
use cyberdaemon.Control.{
  ControllerConfig, Controller, Command, LogConfig, start_immediately, execute, is_empty,
}

abbrev pub app_name : Bytes
app_name = codes "cyberdaemon-filewriter-example"

-- `runtime.GOOS` tells which ID the daemon has.
unfoldable pub example_id : Bytes → Bytes
example_id goos =
    if bytes_eq goos (codes "darwin") then codes "com.github.stephen-fox." ++ app_name else app_name

abbrev pub example_log_config : LogConfig
example_log_config = record { use_native_logger = true; native_log_flags = pos 0 }

unfoldable pub example_config : Bytes → Bytes → ControllerConfig
unfolding example_id
example_config goos exe_path = record {
  daemon_id = example_id goos;
  description = codes "An example daemon implemented using the cyberdaemon library.";
  exe_path = exe_path;
  arguments = [];
  run_as = [];
  start_type = start_immediately;
  log_config = example_log_config;
  system_specific_options = [];
}

-- How `main` ends: the help page and exit status 1, `log.Fatal` with a text, or a return, after
-- one line of output or none.
pub data Ending : Type 0 where
  printed_usage : Ending
  fatal : Bytes → Ending
  logged : Bytes → Ending
  finished : Ending

-- What `main` uses of the system and of the library, over a world.
pub record Setting (W : Type 0) : Type 0 where
  -- `runtime.GOOS`
  pub goos : Bytes
  -- `os.Executable()`
  pub executable : W → Result Bytes
  -- `control.NewController(config)`
  pub new_controller : ControllerConfig → Effect W (Controller W)
  -- `cyberdaemon.NewDaemonizer(logConfig).RunUntilExit(application)`
  pub run_until_exit : LogConfig → W → Option Bytes × W

-- `if len(output) > 0 { log.Println(output) }`
log_output : Bytes → Ending
log_output [] = finished
log_output (c ∷ output) = logged (c ∷ output)

module _ {W : Type 0} where
  end_command : Result Bytes × W → Ending × W
  unfolding log_output
  end_command (ok output, w) = (log_output output, w)
  end_command (err e, w) = (fatal e, w)

  end_run : Option Bytes × W → Ending × W
  end_run (none, w) = (finished, w)
  end_run (some e, w) = (fatal e, w)

  execute_with : Command → Result (Controller W) × W → Ending × W
  unfolding end_command
  execute_with command (ok c, w) = end_command (execute command c w)
  execute_with command (err e, w) = (fatal e, w)

  module _ (S : Setting W) where
    run_command : Command → Result Bytes → W → Ending × W
    unfolding execute_with example_config
    run_command command (ok exe_path) w =
        execute_with command (S.new_controller (example_config S.goos exe_path) w)
    run_command command (err e) w = (fatal (codes "failed to get executable path - " ++ e), w)

    -- `main`, by the flags `-h` and `-command`.
    unfoldable pub main : Bool → Command → W → Ending × W
    unfolding run_command end_run is_empty
    main help command w =
        if help
        then (printed_usage, w)
        else if is_empty command
        then end_run (S.run_until_exit example_log_config w)
        else run_command command (S.executable w) w

-- What `Start` uses of the system: the environment's `TEMP`, `os.MkdirAll(path, 0755)`, and
-- `os.OpenFile(path, os.O_WRONLY|os.O_CREATE|os.O_APPEND, 0644)`, with the file as result.
pub record Storage (W File : Type 0) : Type 0 where
  pub goos : Bytes
  pub temp : W → Bytes
  pub mkdir_all : Bytes → ℕ → W → Option Bytes × W
  pub open_file : Bytes → ℕ → Effect W File

unfoldable pub work_dir_path : Bytes → Bytes → Bytes
unfolding join_path
work_dir_path goos temp =
    join_path ((if bytes_eq goos (codes "windows") then temp else codes "/tmp") ∷ app_name ∷ [])

-- `application.Start`; the result is the file with which `updateFileLoop` is started.
unfoldable pub start : {W File : Type 0} → Storage W File → Effect W File
unfolding work_dir_path join_path
start S w =
    let path = work_dir_path S.goos (S.temp w) in
    let (failure, made) = S.mkdir_all path 0o755 w in
    (do check failure; S.open_file (join_path (path ∷ codes "filewriter-output.txt" ∷ [])) 0o644)
      made
