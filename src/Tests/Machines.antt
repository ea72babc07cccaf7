-- ===== src/Tests/Machines.antt =====
-- A Windows and a macOS machine to run the controllers on.
use cyberdaemon.Prelude.{
  ℕ, Bool, true, false, [], ◌∷◌, Option, none, Bytes, codes, Result, ok, err, ltb, ◌≡◌, refl,
  if◌then◌else◌,
}
use cyberdaemon.Text.Decimal.{decimal, decimal_int}
use cyberdaemon.ServiceManager.{
  Machine, ServiceState, svc_stopped, svc_stop_pending, svc_running, ticked, timed_out,
  start_automatic,
}
use cyberdaemon.ServiceManager
use cyberdaemon.Launchd.{Mac, Settings, Kind, JobStatus, job_not_installed, job_running}
use cyberdaemon.Launchd
use cyberdaemon.Launchd.Laws as LaunchdLaws
use cyberdaemon.Control.{ControllerConfig, get_password, start_immediately}
use cyberdaemon.Control.Windows.{WindowsController, password_option}
use cyberdaemon.Control.Darwin.{DarwinController}
use cyberdaemon.Tests.Fixtures.{config, current}

-- A machine whose state is the time. A service that is told to stop has stopped at time 2. The event
-- source can be installed, or not.
abbrev pub slow_machine : Option Bytes → Machine
slow_machine source_error = record {
  State = ℕ;
  Service = Bytes;
  connect = λ s. none;
  open_service = λ s name. ok name;
  create_service = λ s name exe_path config args. (s, ok name);
  query = λ s service. ok (if ltb s 2 then svc_stop_pending else svc_stopped);
  control_stop = λ s service. (s, ok svc_stop_pending);
  start = λ s service. (s, none);
  delete = λ s service. (s, none);
  install_source = λ s src. (s, source_error);
  remove_source = λ s src. (s, none);
  open_key = λ s path. none;
  get_string_value = λ s path name. ok (decimal 5000);
  wakes = λ s period timer. ticked 1 (ticked 2 (ticked 3 (timed_out 4)));
  duration_string = decimal_int;
}

abbrev pub at_start :
    {source_error : Option Bytes} → ServiceManager.World (slow_machine source_error)
at_start = record {
  state = 0;
  journal = [];
  held = record { managers = 0; services = 0; keys = 0; tickers = 0 };
}

-- A service of another account.
abbrev pub windows_config : ControllerConfig
windows_config = record {
  daemon_id = codes "fw";
  description = codes "Writes a file.";
  exe_path = codes "fw.exe";
  arguments = [];
  run_as = codes "dude";
  start_type = start_immediately;
  log_config = config.log_config;
  system_specific_options = (password_option, get_password (ok (codes "secret"))) ∷ [];
}

abbrev pub windows_fw : WindowsController
windows_fw = record { config = windows_config; win_start_type = start_automatic }

-- A machine whose state is whether the one job is there.
abbrev pub one_job : Mac
one_job = record {
  State = Bool;
  Configuration = Settings;
  mkdir_all = λ s path perm. (s, none);
  current_user = λ s. ok current;
  lookup_user = λ s name. err (codes "unknown user");
  build = λ settings. ok settings;
  get_label = λ settings. settings.label;
  get_kind = λ settings. settings.kind;
  get_file_path = λ s settings. ok (codes "/Library/LaunchDaemons/fw.plist");
  current_status = λ s label. ok (if s then job_running else job_not_installed);
  install = λ s settings. (true, none);
  remove = λ s path kind. (false, none);
  start = λ s label kind. (s, none);
  stop = λ s label kind. (s, none);
}

abbrev pub has_one_job : Bool → Bytes → Bool
has_one_job s label = s

status_known :
    (s : Bool) (job : JobStatus)
    → ◌≡◌ {A = Result JobStatus} (ok (if s then job_running else job_not_installed)) (ok job)
    → ((job ≡ job_not_installed) → s ≡ false) × ((s ≡ false) → job ≡ job_not_installed)
status_known true job h = (λ e. cc, λ e. cc)
status_known false job h = (λ e. refl, λ e. cc)

pub one_job-IsLawful : LaunchdLaws.IsLawful one_job has_one_job
one_job-IsLawful = record {
  status-known = λ s label job h. status_known s job h;
  known-mkdir_all = λ s path label perm. refl;
  known-install = λ s config h. refl;
  known-remove = λ s config path h k. refl;
  known-start = λ s label kind. refl;
  known-stop = λ s label kind. refl;
}

abbrev pub mac_config : ControllerConfig
mac_config = record {
  daemon_id = codes "com.github.fw";
  description = codes "Writes a file.";
  exe_path = codes "/usr/bin/fw";
  arguments = [];
  run_as = codes "dude";
  start_type = start_immediately;
  log_config = config.log_config;
  system_specific_options = [];
}

-- The job of that configuration.
abbrev pub mac_fw : DarwinController one_job
mac_fw = record {
  config = record {
    kind = Launchd.daemon;
    label = codes "com.github.fw";
    run_at_load = true;
    command = codes "/usr/bin/fw";
    standard_error_path = codes "/Users/dude/Library/Logs/com.github.fw/com.github.fw.log";
    user_name = codes "dude";
    arguments = [];
  };
  stderr_log_file_path = codes "/Users/dude/Library/Logs/com.github.fw/com.github.fw.log";
  log_config = config.log_config;
}

abbrev pub no_job : Launchd.World one_job
no_job = record { state = false; journal = [] }
