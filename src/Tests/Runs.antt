-- ===== src/Tests/Runs.antt =====
-- Daemonizers at work.
use cyberdaemon.Prelude.{
  Bool, true, false, List, [], ◌∷◌, ◌≡◌, refl, none, some, Bytes, codes, bytes_eq, ok, lacks,
}
use cyberdaemon.Prelude.Int.{pos, int_of_uint64}
use cyberdaemon.Text.Search.{has_prefix}
use cyberdaemon.Text.FilePath.{join_path}
use cyberdaemon.Text.Split.{split}
use cyberdaemon.Text.Decimal.{decimal_int, parse_uint}
use cyberdaemon.Osutil.{cli_result, is_systemd, search_for_exe_in_paths}
use cyberdaemon.Os.{World}
use cyberdaemon.Control.{LogConfig, is_empty, arguments_as_string}
use cyberdaemon.Control.Systemv.{init_script}
use cyberdaemon.Control.Linux.{new_controller}
use cyberdaemon.Daemon.{Host, Runtime, Exit, Step}
use cyberdaemon.Daemon.Run.{systemd_run, new_daemonizer, systemd_daemonizer}
use cyberdaemon.Daemon.Run.Flags.{Returns, systemd_run_flags}
use cyberdaemon.Daemon.Run.Application.{Lives, systemd_run-Lives}
use cyberdaemon.Daemon.Run.Choice.{Fits, new_daemonizer-Fits}
use cyberdaemon.Daemon.Systemv.Files.{tiny_read}
use cyberdaemon.Daemon.Systemv.Parents.{
  is_initd_our_parent, is_pid_initd, manual_parent_pid, stat_path, cmdline_path,
}
use cyberdaemon.Daemon.Systemv.PidFile.{default_pid_file_path}
use cyberdaemon.Daemon.Systemv.Run.{systemv_run}
use cyberdaemon.Daemon.Systemv.Run.Serving.{Serves, systemv_run-Serves}
use cyberdaemon.Daemon.Systemv.Run.Courses.{
  Launch, no_executable, not_created, not_started, not_written, done, Launches,
}
use cyberdaemon.Daemon.Systemv.Run.Launching.{pid_path, systemv_run-Launches, systemv_run-installed}
use cyberdaemon.Daemon.Systemv.Race.{
  OpenFile, both, writing, wrote, serving, here, then_, write, seek, truncate, close, write_at,
  finished-contents_of_written,
}
use cyberdaemon.Daemon.Systemv.Race.Outcomes.{Finishes, finished-Finishes, stale_pid}
use cyberdaemon.Tests.Fixtures.{config, serialize, calm_os}
use cyberdaemon.Tests.Daemons.{
  num_error, script, below_initd, below_shells, finds_initd, finds_none, value_fits, script_length,
}

-- A host on which everything succeeds, away from any prompt.
abbrev host : Host
host = record {
  os = calm_os;
  getenv = λ s key. [];
  executable = λ s. ok (codes "/usr/bin/fw");
  arguments = codes "-v" ∷ [];
  create_file = λ s path perm. (s, ok 5);
  start_process = λ s exe args native file. (s, ok (pos 42));
  write_string = λ s file text. (s, none);
  is_descriptor = λ s file. true;
  seek_start = λ s file. s;
  truncate_file = λ s file. s;
  close_file = λ s file. s;
  start_application = λ s. (s, none);
  stop_application = λ s. (s, none);
  await_signal = λ s. some s;
}

abbrev logging : LogConfig
logging = record { use_native_logger = true; native_log_flags = pos 3 }

abbrev runtime : World calm_os → Runtime host
runtime w = record { world = w; log_flags = pos 9; log_to_stderr = false; steps = [] }

abbrev with_systemctl : World calm_os
with_systemctl = record { state = (codes "/bin/systemctl", []) ∷ []; journal = [] }

abbrev bare : World calm_os
bare = record { state = []; journal = [] }

systemd_run_flags_example : (systemd_run {H = host} logging (runtime bare)).1.log_flags ≡ pos 0
unfolding systemd_run codes is_empty
systemd_run_flags_example = systemd_run_flags {H = host} logging (runtime bare) tt

systemd_run-Lives_example : Lives host (runtime bare) (systemd_run logging (runtime bare))
systemd_run-Lives_example = systemd_run-Lives {H = host} logging (runtime bare)

systemv_run-Serves_example :
    Serves host (runtime below_shells) (systemv_run num_error logging (runtime below_shells))
unfolding is_empty
systemv_run-Serves_example =
    systemv_run-Serves num_error {H = host} logging (runtime below_shells) refl finds_none refl

systemv_run-Launches_example :
    Launches host below_initd.state
      (pid_path host script below_initd)
      true
      []
      (systemv_run num_error {H = host} logging (runtime below_initd))
unfolding is_empty
systemv_run-Launches_example =
    systemv_run-Launches num_error {H = host} logging script (runtime below_initd) refl finds_initd

-- The same with the script itself.
abbrev installed : World calm_os
installed = record { state = (script, init_script config) ∷ below_initd.state; journal = [] }

finds_installed : (is_initd_our_parent num_error calm_os installed).0 ≡ ok (some script)
unfolding is_initd_our_parent is_pid_initd manual_parent_pid tiny_read split has_prefix decimal_int
    parse_uint codes bytes_eq stat_path cmdline_path int_of_uint64
finds_installed = refl

systemv_run-installed_example :
    Launches host installed.state
      (default_pid_file_path (codes "fw"))
      true
      []
      (systemv_run num_error {H = host} logging (runtime installed))
unfolding codes bytes_eq lacks arguments_as_string is_empty
systemv_run-installed_example =
    systemv_run-installed num_error {H = host} logging config script (runtime installed)
      (value_fits config.daemon_id refl refl) (value_fits config.description refl refl)
      (value_fits config.exe_path refl refl) (value_fits (arguments_as_string config) refl refl)
      (value_fits config.run_as refl refl) refl script_length refl finds_installed

Returns-of_Launch :
    {s : calm_os.State} {path : Bytes} {native : Bool} {exit : Exit} {steps : List Step}
    → Launch host s path native exit steps
    → Returns exit
Returns-of_Launch (no_executable cause h) = tt
Returns-of_Launch (not_created cause exe t h k) = tt
Returns-of_Launch (not_started cause exe file u h) = tt
Returns-of_Launch (not_written cause exe file pid u v h k) = tt
Returns-of_Launch (done exe file pid u v h k) = tt

new_daemonizer-Fits_example :
    Fits calm_os serialize config logging
      (systemd_daemonizer logging)
      (new_controller calm_os serialize config with_systemctl)
unfolding new_daemonizer is_systemd cli_result codes bytes_eq search_for_exe_in_paths join_path
new_daemonizer-Fits_example =
    new_daemonizer-Fits calm_os serialize config logging with_systemctl (systemd_daemonizer logging)
      refl

abbrev line : Bytes
line = codes "42\n"

abbrev written : OpenFile
written = record { contents = line; position = 3 }

-- A file that still holds something, handed over at its end.
abbrev old_file : OpenFile
old_file = record { contents = codes "7\n"; position = 2 }

finished-Finishes_example : Finishes line (both old_file writing serving) written
unfolding write_at codes
finished-Finishes_example =
    finished-Finishes line old_file written
      (then_ (then_ (then_ (then_ here seek) truncate) write) close)

abbrev emptied : OpenFile
emptied = record { contents = []; position = 0 }

finished-contents_of_written_example : emptied.contents ≡ []
finished-contents_of_written_example =
    finished-contents_of_written line written emptied wrote
      (then_ (then_ (then_ here seek) truncate) close)

stale_pid_example : written.contents ≡ line
unfolding write_at codes
stale_pid_example =
    stale_pid line old_file emptied written (then_ (then_ (then_ here seek) truncate) close)
      (then_ here write)
