-- ===== src/Control/Darwin/Jobs.antt =====
-- The launchd job for a configuration, by the account that is to run it.
use cyberdaemon.Prelude.{
  ◌≢◌, ◌↔◌, ◌⊎◌, Bool, true, false, List, if◌then◌else◌, bytes_eq_refl, [], ◌∷◌, ◌++◌, ◌≡◌, refl,
  none, some, Bytes, codes, eq_of_bytes_eq, Result, ok, err, arith,
}
use cyberdaemon.Text.FilePath.{join_path}
use cyberdaemon.Os.{User}
use cyberdaemon.Launchd.{Kind, daemon, user_agent, Settings, Mac}
use cyberdaemon.Control.{
  ControllerConfig, OptionValue, is_empty, lookup_option, start_on_load, start_immediately,
}
use cyberdaemon.Control.Systemd.{run_only_when_logged_in}
use cyberdaemon.Control.Darwin.{
  RunSettings, log_path_suffix, user_log_path, run_on_load, job_settings,
}

-- The settings that are found, by the account.
pub data RunsAs (M : Mac) (config : ControllerConfig) (s : M.State) : RunSettings → Type 0 where
  the_system :
      config.run_as ≡ []
      → RunsAs M config s (record {
        kind = daemon;
        set_run_as = false;
        log_file_path = join_path (codes "/" ∷ log_path_suffix config ∷ []);
      })
  the_current_user :
      (user : User) (v : OptionValue)
      → M.current_user s ≡ ok user
      → is_empty config.run_as ≡ false
      → config.run_as ≡ user.username
      → lookup_option run_only_when_logged_in config.system_specific_options ≡ some v
      → RunsAs M config s (record {
        kind = user_agent;
        set_run_as = false;
        log_file_path = join_path (user.home_dir ∷ log_path_suffix config ∷ []);
      })
  another_user :
      is_empty config.run_as ≡ false
      → lookup_option run_only_when_logged_in config.system_specific_options ≡ none
      → RunsAs M config s (record {
        kind = daemon;
        set_run_as = true;
        log_file_path = user_log_path config (M.lookup_user s config.run_as);
      })

-- What a job has of the configuration, for an account, with a log file below some directories.
pub record JobOf (config : ControllerConfig) (kind : Kind) (user_name : Bytes) (dirs : List Bytes)
    (job : Settings) : Type 0 where
  pub is_kind : job.kind ≡ kind
  pub label : job.label ≡ config.daemon_id
  pub command : job.command ≡ config.exe_path
  pub arguments : job.arguments ≡ config.arguments
  pub is_user : job.user_name ≡ user_name
  pub log_file :
      job.standard_error_path
      ≡ join_path (
          dirs
          ++ (codes "Library/Logs/"
              ++ config.daemon_id
              ++ codes "/"
              ++ config.daemon_id
              ++ codes ".log")
            ∷ [])
  pub at_load :
      (job.run_at_load ≡ true)
      ↔ ((config.start_type ≡ start_on_load) ⊎ (config.start_type ≡ start_immediately))

-- The job of a configuration, by the account that is to run it.
pub data IsJob (M : Mac) (config : ControllerConfig) (s : M.State) (job : Settings) : Type 0 where
  for_system :
      config.run_as ≡ [] → JobOf config daemon [] (codes "/" ∷ []) job → IsJob M config s job
  for_current_user :
      (user : User) (v : OptionValue)
      → config.run_as ≢ []
      → M.current_user s ≡ ok user
      → config.run_as ≡ user.username
      → lookup_option run_only_when_logged_in config.system_specific_options ≡ some v
      → JobOf config user_agent [] (user.home_dir ∷ []) job
      → IsJob M config s job
  for_user :
      (user : User)
      → config.run_as ≢ []
      → lookup_option run_only_when_logged_in config.system_specific_options ≡ none
      → M.lookup_user s config.run_as ≡ ok user
      → JobOf config daemon config.run_as (user.home_dir ∷ []) job
      → IsJob M config s job
  for_unknown_user :
      (e : Bytes)
      → config.run_as ≢ []
      → lookup_option run_only_when_logged_in config.system_specific_options ≡ none
      → M.lookup_user s config.run_as ≡ err e
      → JobOf config daemon config.run_as (codes "/Users" ∷ config.run_as ∷ []) job
      → IsJob M config s job

ne_nil : (t : Bytes) → is_empty t ≡ false → t ≢ []
unfolding is_empty
ne_nil t h e = cc

run_on_load_iff :
    (config : ControllerConfig)
    → (run_on_load config ≡ true)
      ↔ ((config.start_type ≡ start_on_load) ⊎ (config.start_type ≡ start_immediately))
unfolding run_on_load
run_on_load_iff config = ground (
  arith,
  bytes_eq_refl config.start_type,
  eq_of_bytes_eq config.start_type start_on_load,
  eq_of_bytes_eq config.start_type start_immediately,
)

job_settings-JobOf :
    (config : ControllerConfig) (kind : Kind) (named : Bool) (dirs : List Bytes)
    → JobOf config kind (if named then config.run_as else []) dirs (
        job_settings config (record {
          kind = kind;
          set_run_as = named;
          log_file_path = join_path (dirs ++ log_path_suffix config ∷ []);
        }))
unfolding job_settings log_path_suffix
job_settings-JobOf config kind named dirs = record {
  is_kind = refl;
  label = refl;
  command = refl;
  arguments = refl;
  is_user = refl;
  log_file = refl;
  at_load = run_on_load_iff config;
}

looked_up-IsJob :
    (M : Mac) (config : ControllerConfig) (s : M.State) (found : Result User)
    → is_empty config.run_as ≡ false
    → lookup_option run_only_when_logged_in config.system_specific_options ≡ none
    → M.lookup_user s config.run_as ≡ found
    → IsJob M config s (
        job_settings config
          (record { kind = daemon; set_run_as = true; log_file_path = user_log_path config found }))
unfolding user_log_path
looked_up-IsJob M config s (ok user) asked unset found =
    for_user user (ne_nil config.run_as asked) unset found
      (job_settings-JobOf config daemon true (user.home_dir ∷ []))
looked_up-IsJob M config s (err e) asked unset found =
    for_unknown_user e (ne_nil config.run_as asked) unset found
      (job_settings-JobOf config daemon true (codes "/Users" ∷ config.run_as ∷ []))

pub job_settings-IsJob :
    (M : Mac) (config : ControllerConfig) (s : M.State) (settings : RunSettings)
    → RunsAs M config s settings
    → IsJob M config s (job_settings config settings)
job_settings-IsJob M config s settings (the_system h) =
    for_system h (job_settings-JobOf config daemon false (codes "/" ∷ []))
job_settings-IsJob M config s settings (the_current_user user v found asked same given) =
    for_current_user user v (ne_nil config.run_as asked) found same given
      (job_settings-JobOf config user_agent false (user.home_dir ∷ []))
job_settings-IsJob M config s settings (another_user asked unset) =
    looked_up-IsJob M config s (M.lookup_user s config.run_as) asked unset refl
