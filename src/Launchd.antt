-- ===== src/Launchd.antt =====
-- A macOS machine below the program: the calls of github.com/stephen-fox/launchctlutil and of Go's
-- `os` and `os/user` that the controller makes, as an interface over an unknown state. `World` adds
-- to that state a journal of the calls that change something, the latest first.
pub mod Laws
use cyberdaemon.Prelude.{ℕ, Bool, List, ◌∷◌, Option, Bytes, Result, ok, Effect}
use cyberdaemon.Os.{User}

-- `launchctlutil.Kind`, with the kinds that the code names.
pub data Kind : Type 0 where
  daemon user_agent : Kind

-- `launchctlutil.Status`, with the statuses that the code names.
pub data JobStatus : Type 0 where
  job_not_installed job_not_running job_running : JobStatus
  job_other : Bytes → JobStatus

-- What the code sets in a `launchctlutil.ConfigurationBuilder`.
pub record Settings : Type 0 where
  pub kind : Kind
  pub label : Bytes
  pub run_at_load : Bool
  pub command : Bytes
  pub standard_error_path : Bytes
  pub user_name : Bytes
  pub arguments : List Bytes

pub record Mac : Type 1 where
  pub State : Type 0
  -- `launchctlutil.Configuration`
  pub Configuration : Type 0
  -- `os.MkdirAll(path, perm)`
  pub mkdir_all : State → Bytes → ℕ → State × Option Bytes
  -- `user.Current()` and `user.Lookup(name)`
  pub current_user : State → Result User
  pub lookup_user : State → Bytes → Result User
  -- `builder.Build()`
  pub build : Settings → Result Configuration
  -- `config.GetLabel()`, `config.GetKind()` and `config.GetFilePath()`
  pub get_label : Configuration → Bytes
  pub get_kind : Configuration → Kind
  pub get_file_path : State → Configuration → Result Bytes
  -- `launchctlutil.CurrentStatus(label)`, the status of the details
  pub current_status : State → Bytes → Result JobStatus
  -- `launchctlutil.Install(config)`
  pub install : State → Configuration → State × Option Bytes
  -- `launchctlutil.Remove(path, kind)`
  pub remove : State → Bytes → Kind → State × Option Bytes
  -- `launchctlutil.Start(label, kind)` and `launchctlutil.Stop(label, kind)`
  pub start : State → Bytes → Kind → State × Option Bytes
  pub stop : State → Bytes → Kind → State × Option Bytes

-- The calls that change the machine, whether they succeed or not.
pub data Call (Configuration : Type 0) : Type 0 where
  made_directory : Bytes → ℕ → Call Configuration
  installed : Configuration → Call Configuration
  removed started stopped : Bytes → Kind → Call Configuration

pub record World (M : Mac) : Type 0 where
  pub state : M.State
  pub journal : List (Call M.Configuration)

abbrev pub Task : Mac → Type 0 → Type 0
Task M A = Effect (World M) A

module _ (M : Mac) where
  -- A call that changes the machine, by its outcome.
  abbrev called :
      Call M.Configuration → M.State × Option Bytes → World M → Result (Option Bytes) × World M
  called c (s, failure) w = (ok failure, record { state = s; journal = c ∷ w.journal })

  abbrev pub mkdir_all : Bytes → ℕ → Task M (Option Bytes)
  mkdir_all path perm w = called (made_directory path perm) (M.mkdir_all w.state path perm) w

  abbrev pub current_user : Task M User
  current_user w = (M.current_user w.state, w)

  abbrev pub lookup_user : Bytes → Task M User
  lookup_user name w = (M.lookup_user w.state name, w)

  abbrev pub get_file_path : M.Configuration → Task M Bytes
  get_file_path config w = (M.get_file_path w.state config, w)

  abbrev pub current_status : Bytes → Task M JobStatus
  current_status label w = (M.current_status w.state label, w)

  abbrev pub install : M.Configuration → Task M (Option Bytes)
  install config w = called (installed config) (M.install w.state config) w

  abbrev pub remove : Bytes → Kind → Task M (Option Bytes)
  remove path kind w = called (removed path kind) (M.remove w.state path kind) w

  abbrev pub start : Bytes → Kind → Task M (Option Bytes)
  start label kind w = called (started label kind) (M.start w.state label kind) w

  abbrev pub stop : Bytes → Kind → Task M (Option Bytes)
  stop label kind w = called (stopped label kind) (M.stop w.state label kind) w
