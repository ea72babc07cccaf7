-- ===== src/Control/Darwin.antt =====
-- control/controller_darwin.go, over the machine of Launchd.antt.
pub mod Building
pub mod Jobs
pub mod Faithful
use cyberdaemon.Prelude.{
  ℕ, suc, Bool, true, false, List, [], ◌∷◌, ◌++◌, Option, none, some, Bytes, codes, bytes_eq, ltb,
  Result, ok, err, if◌then◌else◌, map_err, pure, raise, lift, try, check, ◌>>=◌, ◌>>◌,
}
use cyberdaemon.Text.Split.{count}
use cyberdaemon.Text.FilePath.{dir, join_path}
use cyberdaemon.Os.{User}
use cyberdaemon.Launchd.{
  Kind, daemon, user_agent, JobStatus, job_not_installed, job_not_running, job_running, job_other,
  Settings, Mac, World, Task, mkdir_all, current_user, lookup_user, get_file_path, current_status,
}
use cyberdaemon.Launchd
use cyberdaemon.Control.{
  Status, unknown, running, stopped, not_installed, start_immediately, start_on_load, LogConfig,
  ControllerConfig, OptionValue, Controller, validate, is_empty, lookup_option,
}
use cyberdaemon.Control.Systemd.{run_only_when_logged_in}

pub record DarwinController (M : Mac) : Type 0 where
  pub config : M.Configuration
  pub stderr_log_file_path : Bytes
  pub log_config : LogConfig

-- The switch of `Status`.
unfoldable pub status_of_job : JobStatus → Status
status_of_job job_not_installed = not_installed
status_of_job job_not_running = stopped
status_of_job job_running = running
status_of_job (job_other s) = unknown

-- The results of `runSettings`.
pub record RunSettings : Type 0 where
  pub kind : Kind
  pub set_run_as : Bool
  pub log_file_path : Bytes

unfoldable pub log_path_suffix : ControllerConfig → Bytes
log_path_suffix config =
    codes "Library/Logs/" ++ config.daemon_id ++ codes "/" ++ config.daemon_id ++ codes ".log"

-- The user agent that the option asks for.
unfoldable pub agent_settings : ControllerConfig → User → Result RunSettings
unfolding log_path_suffix join_path
agent_settings config current =
    if bytes_eq config.run_as current.username
    then ok (record {
      kind = user_agent;
      set_run_as = false;
      log_file_path = join_path (current.home_dir ∷ log_path_suffix config ∷ []);
    })
    else err (
        codes "the '"
        ++ run_only_when_logged_in
        ++ codes "' option cannot be used when the curret user is not the RunAs user")

-- The log file path of the user that `user.Lookup` finds, or does not.
unfoldable pub user_log_path : ControllerConfig → Result User → Bytes
unfolding log_path_suffix join_path
user_log_path config (ok found) = join_path (found.home_dir ∷ log_path_suffix config ∷ [])
user_log_path config (err e) =
    join_path (codes "/Users" ∷ config.run_as ∷ log_path_suffix config ∷ [])

-- `strings.Count(controllerConfig.DaemonID, ".") < 2`
unfoldable pub check_id : ControllerConfig → Result (Unit {0})
unfolding count
check_id config =
    if ltb (count config.daemon_id b'.') 2
    then err (codes "daemon ID must be in reverse DNS format on macOS (e.g., net.website.MyApp)")
    else ok tt

-- The switch on the start type in `NewController`.
unfoldable pub run_on_load : ControllerConfig → Bool
run_on_load config =
    if bytes_eq config.start_type start_on_load
    then true
    else bytes_eq config.start_type start_immediately

-- What `NewController` sets in the builder.
unfoldable pub job_settings : ControllerConfig → RunSettings → Settings
unfolding run_on_load
job_settings config settings = record {
  kind = settings.kind;
  label = config.daemon_id;
  run_at_load = run_on_load config;
  command = config.exe_path;
  standard_error_path = settings.log_file_path;
  user_name = if settings.set_run_as then config.run_as else [];
  arguments = config.arguments;
}

module _ (M : Mac) where
  option_settings : ControllerConfig → User → Option OptionValue → Task M RunSettings
  unfolding agent_settings user_log_path
  option_settings config current (some v) = lift (agent_settings config current)
  option_settings config current none = do
    found ← try (lookup_user M config.run_as)
    pure (record { kind = daemon; set_run_as = true; log_file_path = user_log_path config found })

  -- `runSettings`
  unfoldable pub run_settings : ControllerConfig → Task M RunSettings
  unfolding is_empty log_path_suffix join_path option_settings
  run_settings config =
      if is_empty config.run_as
      then pure (record {
        kind = daemon;
        set_run_as = false;
        log_file_path = join_path (codes "/" ∷ log_path_suffix config ∷ []);
      })
      else do
        current ← try (current_user M)
        user ← lift (map_err (λ e. codes "failed to get current user - " ++ e) current)
        option_settings config user
            (lookup_option run_only_when_logged_in config.system_specific_options)

  -- `NewController`
  unfoldable pub new_darwin_controller : ControllerConfig → Task M (DarwinController M)
  unfolding validate check_id run_settings job_settings
  new_darwin_controller config = do
    lift (validate config)
    lift (check_id config)
    settings ← run_settings config
    job ← lift (M.build (job_settings config settings))
    pure (record {
      config = job;
      stderr_log_file_path = settings.log_file_path;
      log_config = config.log_config;
    })

  -- `darwinController.Status`
  unfoldable pub status : DarwinController M → Task M Status
  unfolding status_of_job
  status o = do job ← current_status M (M.get_label o.config); pure (status_of_job job)

  make_log_directory : DarwinController M → Task M (Unit {0})
  unfolding dir
  make_log_directory o =
      if o.log_config.use_native_logger
      then (do failure ← mkdir_all M (dir o.stderr_log_file_path) 0o700; check failure)
      else pure tt

  install_job : DarwinController M → Task M (Unit {0})
  install_job o = do failure ← Launchd.install M o.config; check failure

  -- `darwinController.Install`
  unfoldable pub install : DarwinController M → Task M (Unit {0})
  unfolding make_log_directory install_job
  install o = do make_log_directory o; install_job o

  -- `darwinController.Uninstall`
  unfoldable pub uninstall : DarwinController M → Task M (Unit {0})
  uninstall o = do
    path ← get_file_path M o.config
    failure ← Launchd.remove M path (M.get_kind o.config)
    check failure

  -- `darwinController.Start`
  unfoldable pub start : DarwinController M → Task M (Unit {0})
  start o = do failure ← Launchd.start M (M.get_label o.config) (M.get_kind o.config); check failure

  -- `darwinController.Stop`
  unfoldable pub stop : DarwinController M → Task M (Unit {0})
  stop o = do failure ← Launchd.stop M (M.get_label o.config) (M.get_kind o.config); check failure

  -- The controller behind the interface.
  unfoldable pub controller : DarwinController M → Controller (World M)
  controller o = record {
    status = status o;
    install = install o;
    uninstall = uninstall o;
    start = start o;
    stop = stop o;
  }
