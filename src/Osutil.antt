-- ===== src/Osutil.antt =====
-- internal/osutil/util_linux.go: which service manager the system has, and its command line tools.
pub mod Detection
pub mod Probes
use cyberdaemon.Prelude.{
  ℕ, Bool, true, false, ◌&&◌, List, [], ◌∷◌, ◌++◌, Option, none, some, Bytes, codes, Result, ok,
  err, if◌then◌else◌,
}
use cyberdaemon.Prelude.Int.{ℤ, pos, int_eq}
use cyberdaemon.Text.Search.{has_prefix}
use cyberdaemon.Text.Split.{join}
use cyberdaemon.Text.Trim.{trim_space}
use cyberdaemon.Text.FilePath.{join_path}
use cyberdaemon.Os.{Os, ExecResult, Action, pure, raise, try, ◌>>=◌, ◌>>◌, stat, execute, is_file}

abbrev pub systemctl_exe_name : Bytes
systemctl_exe_name = codes "systemctl"

abbrev pub service_exe_name : Bytes
service_exe_name = codes "service"

abbrev pub chkconfig_exe_name : Bytes
chkconfig_exe_name = codes "chkconfig"

abbrev pub updatercd_exe_name : Bytes
updatercd_exe_name = codes "update-rc.d"

abbrev pub systemctl_exe_dir_paths : List Bytes
systemctl_exe_dir_paths = codes "/bin" ∷ []

abbrev pub service_exe_dir_paths : List Bytes
service_exe_dir_paths = codes "/sbin" ∷ codes "/usr/sbin" ∷ []

-- `%v` and `%s` of a slice of strings.
unfoldable pub format_strings : List Bytes → Bytes
unfolding join
format_strings items = codes "[" ++ (join items (codes " ") ++ codes "]")

pub record CliResult : Type 0 where
  pub output : Bytes
  pub exit_code : ℤ
  pub failure : Option Bytes

unfoldable pub cli_failure : Bytes → List Bytes → Bytes → Option Bytes → Option Bytes
unfolding format_strings
cli_failure exe args output none = none
cli_failure exe args output (some e) = some (
    codes "failed to execute '"
    ++ exe
    ++ codes " "
    ++ format_strings args
    ++ codes "' - "
    ++ e
    ++ codes " - output: "
    ++ output)

unfoldable pub cli_result : Bytes → List Bytes → ExecResult → CliResult
unfolding cli_failure trim_space
cli_result exe args r = record {
  output = trim_space r.output;
  exit_code = r.exit_code;
  failure = cli_failure exe args (trim_space r.output) r.failure;
}

pub record SystemvTools : Type 0 where
  pub service_path : Bytes
  pub is_red_hat : Bool
  pub why_not_systemv : Bytes
  pub found : Bool

module _ (O : Os) where
  -- The error is a value here, since callers look at the exit code beside it.
  unfoldable pub run_daemon_cli : Bytes → List Bytes → Action O CliResult
  run_daemon_cli exe args = do r ← execute O exe args; pure (cli_result exe args r)

  search_in : Bytes → List Bytes → List Bytes → Action O Bytes
  search_in exe_name all [] = raise (
      codes "failed to locate '"
      ++ exe_name
      ++ codes "' executable in the following directory paths: "
      ++ format_strings all)
  search_in exe_name all (dir ∷ dirs) = do
    let file_path = join_path (dir ∷ exe_name ∷ [])
    let rest = search_in exe_name all dirs
    info ← stat O file_path
    if is_file info then pure file_path else rest

  unfoldable pub search_for_exe_in_paths : Bytes → List Bytes → Action O Bytes
  unfolding search_in
  search_for_exe_in_paths exe_name dirs = search_in exe_name dirs dirs

  try_systemctl : Result Bytes → Action O (Bytes × Bool)
  try_systemctl (err e) = pure ([], false)
  try_systemctl (ok path) = do
    r ← run_daemon_cli path []
    pure (if int_eq r.exit_code (pos 0) then (path, true) else ([], false))

  unfoldable pub is_systemd : Action O (Bytes × Bool)
  unfolding try_systemctl run_daemon_cli
  is_systemd = do
    found ← try (search_for_exe_in_paths systemctl_exe_name systemctl_exe_dir_paths)
    try_systemctl found

  -- The result for the service tool at a path, by whether its output begins as it has to.
  service_tools : Bytes → Bool → Action O SystemvTools
  service_tools path true = do
    release ← stat O (codes "/etc/redhat-release")
    pure (record {
      service_path = path;
      is_red_hat = is_file release;
      why_not_systemv = [];
      found = true;
    })
  service_tools path false = pure (record {
    service_path = [];
    is_red_hat = false;
    why_not_systemv = codes "'" ++ path ++ codes "' did not produce expected output";
    found = false;
  })

  try_service : Result Bytes → Action O SystemvTools
  unfolding service_tools
  try_service (err e) =
      pure (record { service_path = []; is_red_hat = false; why_not_systemv = e; found = false })
  try_service (ok path) = do
    r ← run_daemon_cli path []
    service_tools path (has_prefix r.output (codes "Usage: service <"))

  unfoldable pub is_systemv : Action O SystemvTools
  unfolding try_service run_daemon_cli
  is_systemv = do
    found ← try (search_for_exe_in_paths service_exe_name service_exe_dir_paths)
    try_service found

  unfoldable pub chkconfig_path : Action O Bytes
  chkconfig_path = search_for_exe_in_paths chkconfig_exe_name service_exe_dir_paths

  unfoldable pub updatercd_path : Action O Bytes
  updatercd_path = search_for_exe_in_paths updatercd_exe_name service_exe_dir_paths
