-- ===== src/Daemon/Systemv/Run.antt =====
-- `systemvDaemonizer.RunUntilExit` of daemon_systemv_linux.go. The parameter is the text of the
-- error of `strconv.ParseUint` for a text.
pub mod Courses
pub mod Launching
pub mod Serving
use cyberdaemon.Prelude.{
  ℕ, Bool, true, false, List, [], ◌∷◌, ◌++◌, Option, none, some, Bytes, codes, Result, ok, err,
  if◌then◌else◌,
}
use cyberdaemon.Prelude.Int.{ℤ}
use cyberdaemon.Text.Decimal.{decimal_int}
use cyberdaemon.Text.FilePath.{base}
use cyberdaemon.Control.{LogConfig}
use cyberdaemon.Daemon.{
  Host, Runtime, Program, Exit, returned, waiting, created, launched, wrote, rewound, cut_off,
  closed_file, set_output, after_step, in_world, finish,
}
use cyberdaemon.Daemon.Run.{is_daemon, with_flags, run_application}
use cyberdaemon.Daemon.Systemv.Parents.{is_initd_our_parent}
use cyberdaemon.Daemon.Systemv.PidFile.{default_pid_file_path, pid_file_path_from_initd_script}

abbrev pub pid_file_perm : ℕ
pid_file_perm = 0o644

-- The descriptor of the PID file in the daemon: the first of `ExtraFiles`.
abbrev pub pid_file_descriptor : ℕ
pid_file_descriptor = 3

abbrev failed : {H : Host} → Bytes → Program H
failed reason r = (returned (some reason), r)

-- `fmt.Sprintf("%d\n", pid)`
unfoldable pub pid_line : ℤ → Bytes
pid_line pid = decimal_int pid ++ b'\n' ∷ []

-- The path that is found, or the one that is tried in its place.
unfoldable pub pid_file_path_or_default : Result Bytes → Bytes → Bytes
pid_file_path_or_default (ok path) script = path
pid_file_path_or_default (err e) script = default_pid_file_path (base script)

module _ {H : Host} where
  write_result : Option Bytes → Program H
  write_result (some e) r = failed (codes "failed to write daemon pid to pid file - " ++ e) r
  write_result none r = (returned none, r)

  -- The PID of the process that was started goes to the PID file.
  write_pid : ℕ → ℤ → Program H
  unfolding write_result
  write_pid file pid r =
      let (s, failure) = H.write_string r.world.state file (pid_line pid) in
      write_result failure (after_step (wrote file (pid_line pid) failure) s r)

  start_result : ℕ → Result ℤ → Program H
  unfolding write_pid
  start_result file (err e) = failed (codes "failed to exec daemon process - " ++ e)
  start_result file (ok pid) = write_pid file pid

  start_daemon : LogConfig → Bytes → ℕ → Program H
  unfolding start_result
  start_daemon config exe file r =
      let native = config.use_native_logger in
      let (s, started) = H.start_process r.world.state exe H.arguments native file in
      start_result file started (after_step (launched exe H.arguments native file) s r)

  pub create_result : LogConfig → Bytes → Result ℕ → Program H
  unfolding start_daemon
  create_result config exe (err e) = failed (codes "failed to open pid file - " ++ e)
  create_result config exe (ok file) = start_daemon config exe file

  create_pid_file : LogConfig → Bytes → Bytes → Program H
  unfolding create_result
  create_pid_file config exe path r =
      let (s, opened) = H.create_file r.world.state path pid_file_perm in
      create_result config exe opened (after_step (created path) s r)

  find_pid_file : LogConfig → Bytes → Bytes → Program H
  unfolding create_pid_file pid_file_path_or_default
  find_pid_file config exe script r =
      let (path, w) = pid_file_path_from_initd_script H.os script r.world in
      create_pid_file config exe (pid_file_path_or_default path script) (in_world w r)

  executable_result : LogConfig → Bytes → Result Bytes → Program H
  unfolding find_pid_file
  executable_result config script (err e) =
      failed (codes "failed to get executable path when exec'ing daemon - " ++ e)
  executable_result config script (ok exe) = find_pid_file config exe script

  -- The process that init.d started: it starts the daemon and returns.
  launch : LogConfig → Bytes → Program H
  unfolding executable_result
  launch config script r = executable_result config script (H.executable r.world.state) r

  -- The deferred function of the daemon.
  unfoldable pub clear_pid_file : Runtime H → Runtime H
  clear_pid_file r =
      let file = pid_file_descriptor in
      let at_start = after_step (rewound file) (H.seek_start r.world.state file) r in
      let emptied =
        after_step (cut_off file) (H.truncate_file at_start.world.state file) at_start in
      after_step (closed_file file) (H.close_file emptied.world.state file) emptied

  -- The daemon that such a process started.
  unfoldable pub serve : Program H
  unfolding run_application clear_pid_file
  serve r =
      if H.is_descriptor r.world.state pid_file_descriptor
      then finish clear_pid_file (run_application r)
      else failed
          (codes
            "failed to open pid file passed to daemon - file descriptor might of been crushed?")
          r

  -- What the search for init.d leads to.
  unfoldable pub by_search : LogConfig → Result (Option Bytes) → Program H
  unfolding launch serve
  by_search config (err e) r =
      failed (codes "failed to determine if init.d started the process - " ++ e) r
  by_search config (ok none) r = serve r
  by_search config (ok (some script)) r = launch config script r

module _ (num_error : Bytes → Bytes) {H : Host} where
  -- What follows the set-up of the logger where there is no user at a prompt.
  unfoldable pub launch_or_serve : LogConfig → Program H
  unfolding by_search
  launch_or_serve config r =
      let (found, w) = is_initd_our_parent num_error H.os r.world in
      by_search config found (in_world w r)

  -- `systemvDaemonizer.RunUntilExit`
  unfoldable pub systemv_run : LogConfig → Program H
  unfolding launch_or_serve with_flags run_application
  systemv_run config r =
      if is_daemon r
      then if config.use_native_logger
        then with_flags config (launch_or_serve config) (set_output r)
        else launch_or_serve config r
      else run_application r
