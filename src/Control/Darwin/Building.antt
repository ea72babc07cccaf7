-- ===== src/Control/Darwin/Building.antt =====
-- Which launchd job `NewController` of macOS builds, and for whom.
use cyberdaemon.Prelude.{
  ◌≤◌, true, false, [], ◌∷◌, ◌++◌, length, ◌≡◌, refl, Option, none, some, Bytes, codes, bytes_eq,
  eq_of_bytes_eq, Result, ok, err, arith, if-cases, map_err, pure, lift, continue, ◌>>=◌, ◌>>◌,
}
use cyberdaemon.Prelude.Ensures.{WhenOk, WhenOk-ok}
use cyberdaemon.Text.Split.{split, length-split}
use cyberdaemon.Os.{User}
use cyberdaemon.Launchd.{Settings, Mac, World, Task}
use cyberdaemon.Control.{ControllerConfig, OptionValue, validate, is_empty, lookup_option}
use cyberdaemon.Control.Systemd.{run_only_when_logged_in}
use cyberdaemon.Control.Darwin.{
  DarwinController, RunSettings, agent_settings, check_id, job_settings, option_settings,
  run_settings, new_darwin_controller,
}
use cyberdaemon.Control.Darwin.Jobs.{
  RunsAs, the_system, the_current_user, another_user, IsJob, job_settings-IsJob,
}

-- The controller `o` is for a job that was built.
pub record Built (M : Mac) (config : ControllerConfig) (s : M.State) (o : DarwinController M)
    : Type 0 where
  pub job : Settings
  pub is_job : IsJob M config s job
  pub built : M.build job ≡ ok o.config
  pub log_path : o.stderr_log_file_path ≡ job.standard_error_path
  pub has_command : is_empty config.exe_path ≡ false
  pub three_parts : 3 ≤ length (split config.daemon_id b'.')

is_empty-nil : (t : Bytes) → is_empty t ≡ true → t ≡ []
unfolding is_empty
is_empty-nil [] h = refl
is_empty-nil (c ∷ t) h = cc

check_id-ok :
    (config : ControllerConfig) → check_id config ≡ ok tt → 3 ≤ length (split config.daemon_id b'.')
unfolding check_id
check_id-ok config h = ground (arith, length-split config.daemon_id b'.')

validate-ok :
    (config : ControllerConfig) → validate config ≡ ok tt → is_empty config.exe_path ≡ false
unfolding validate
validate-ok config h = ground arith

module _ (M : Mac) (config : ControllerConfig) where
  -- Settings that are returned fit the account, and the world is as it was.
  abbrev Settled : World M → Result RunSettings × World M → Type 0
  Settled w end = WhenOk (RunsAs M config w.state) end.0 × (end.1 ≡ w)

  agent-Settled :
      (user : User) (v : OptionValue) (w : World M)
      → M.current_user w.state ≡ ok user
      → is_empty config.run_as ≡ false
      → lookup_option run_only_when_logged_in config.system_specific_options ≡ some v
      → Settled w (agent_settings config user, w)
  unfolding agent_settings
  agent-Settled user v w found asked given =
      if-cases (λ (t : Result RunSettings). Settled w (t, w)) (bytes_eq config.run_as user.username)
        (λ same. (
          the_current_user user v found asked (eq_of_bytes_eq config.run_as user.username same)
              given,
          refl,
        ))
        (λ _. (tt, refl))

  option-Settled :
      (user : User) (given : Option OptionValue) (w : World M)
      → is_empty config.run_as ≡ false
      → M.current_user w.state ≡ ok user
      → lookup_option run_only_when_logged_in config.system_specific_options ≡ given
      → Settled w (option_settings M config user given w)
  unfolding option_settings
  option-Settled user (some v) w run_as found given = agent-Settled user v w found run_as given
  option-Settled user none w run_as found given = (another_user run_as given, refl)

  user-Settled :
      (found : Result User) (w : World M)
      → is_empty config.run_as ≡ false
      → M.current_user w.state ≡ found
      → Settled w (
          continue
            (map_err (λ e. codes "failed to get current user - " ++ e) found)
            (λ user.
              option_settings M config user
                (lookup_option run_only_when_logged_in config.system_specific_options))
            w)
  user-Settled (ok user) w run_as found = option-Settled user _ w run_as found refl
  user-Settled (err e) w run_as found = (tt, refl)

  run_settings-Settled : (w : World M) → Settled w (run_settings M config w)
  unfolding run_settings
  run_settings-Settled w =
      if-cases (λ (m : Task M RunSettings). Settled w (m w)) (is_empty config.run_as)
        (λ e. (the_system (is_empty-nil config.run_as e), refl))
        (λ e. user-Settled (M.current_user w.state) w e refl)

  job : RunSettings → Task M (DarwinController M)
  job settings = do
    job ← lift (M.build (job_settings config settings))
    pure (record {
      config = job;
      stderr_log_file_path = settings.log_file_path;
      log_config = config.log_config;
    })

  abbrev BuiltWhenOk : M.State → Result (DarwinController M) → Type 0
  BuiltWhenOk s r = WhenOk (Built M config s) r

  built-WhenOk :
      (settings : RunSettings) (r : Result M.Configuration) (s : M.State) (w : World M)
      → RunsAs M config s settings
      → is_empty config.exe_path ≡ false
      → 3 ≤ length (split config.daemon_id b'.')
      → M.build (job_settings config settings) ≡ r
      → BuiltWhenOk s
          (continue r
            (λ job. pure (record {
              config = job;
              stderr_log_file_path = settings.log_file_path;
              log_config = config.log_config;
            }))
            w).0
  unfolding job_settings
  built-WhenOk settings (ok j) s w runs command parts made = record {
    job = job_settings config settings;
    is_job = job_settings-IsJob M config s settings runs;
    built = made;
    log_path = refl;
    has_command = command;
    three_parts = parts;
  }
  built-WhenOk settings (err e) s w runs command parts made = tt

  settled-WhenOk :
      (r : Result RunSettings) (s : M.State) (w : World M)
      → WhenOk (RunsAs M config s) r
      → is_empty config.exe_path ≡ false
      → 3 ≤ length (split config.daemon_id b'.')
      → BuiltWhenOk s (continue r job w).0
  unfolding job
  settled-WhenOk (ok settings) s w runs command parts =
      built-WhenOk settings (M.build (job_settings config settings)) s w runs command parts refl
  settled-WhenOk (err e) s w runs command parts = tt

  checked-WhenOk :
      (u v : Result (Unit {0})) (w : World M)
      → validate config ≡ u
      → check_id config ≡ v
      → BuiltWhenOk w.state (continue u (λ _. lift v >> (run_settings M config >>= job)) w).0
  checked-WhenOk (ok _) (ok _) w valid named =
      let (settled, _) = run_settings-Settled w in
      settled-WhenOk (run_settings M config w).0 w.state (run_settings M config w).1 settled
        (validate-ok config valid) (check_id-ok config named)
  checked-WhenOk (ok _) (err e) w valid named = tt
  checked-WhenOk (err e) v w valid named = tt

  -- A controller that `NewController` of macOS returns is for a launchd job that was built with the
  -- ID, the command and the arguments of the configuration, the ID having at least three parts and the
  -- command not being empty; it is run when it is loaded exactly if the start type is StartOnLoad or
  -- StartImmediately. Where no user is asked for, it is a daemon with no user name, and its log
  -- file is Library/Logs/<ID>/<ID>.log below the root. Where the option is given, it is an agent with
  -- no user name for the current user, who is the one asked for, and the log file is there below that
  -- user's home. Where a user is asked for without the option, it is a daemon under that user's name,
  -- with the log file below the home of that user, or below /Users and the name if the user is not
  -- found. The controller keeps the path that the job was given.
  pub new_darwin_controller-Built :
      (w : World M) (o : DarwinController M)
      → (new_darwin_controller M config w).0 ≡ ok o
      → Built M config w.state o
  unfolding new_darwin_controller job
  new_darwin_controller-Built w o h =
      WhenOk-ok (Built M config w.state) (new_darwin_controller M config w).0 o
        (checked-WhenOk (validate config) (check_id config) w refl refl) h
