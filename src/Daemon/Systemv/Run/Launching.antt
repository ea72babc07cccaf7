-- ===== src/Daemon/Systemv/Run/Launching.antt =====
-- The System V daemonizer in the process that init.d started.
use cyberdaemon.Prelude.{
  true, [], ◌≡◌, ◌<◌, refl, ap, sym, subst, Bytes, Option, none, some, ok, err, Result, if-cases,
  length, arith,
}
use cyberdaemon.Os.{Os, World}
use cyberdaemon.Control.{LogConfig, ControllerConfig, arguments_as_string}
use cyberdaemon.Control.Systemv.{init_script}
use cyberdaemon.Daemon.{Host, Runtime, Exit, set_flags, set_output, in_world}
use cyberdaemon.Daemon.Run.{is_daemon, is_positive, with_flags}
use cyberdaemon.Daemon.Systemv.Files.{read_limit}
use cyberdaemon.Daemon.Systemv.PidFile.{pid_file_path_from_initd_script, default_pid_file_path}
use cyberdaemon.Daemon.Systemv.Handover.{FitsField, pid_file_path-handover}
use cyberdaemon.Daemon.Systemv.Parents.{is_initd_our_parent}
use cyberdaemon.Daemon.Systemv.Parents.Ancestors.{is_initd_our_parent_world}
use cyberdaemon.Daemon.Systemv.Run.{
  pid_file_path_or_default, create_pid_file, find_pid_file, executable_result, launch, by_search,
  launch_or_serve, systemv_run,
}
use cyberdaemon.Daemon.Systemv.Run.Courses.{
  no_executable, Launches, create_result-Launches, finish-Launches,
}

-- The PID file of a script, in some state of the system.
abbrev pub pid_path : (H : Host) → Bytes → World H.os → Bytes
pid_path H script w =
    pid_file_path_or_default (pid_file_path_from_initd_script H.os script w).0 script

-- Reading the script changes nothing.
pid_file_path_from_initd_script_world :
    (O : Os) (script : Bytes) (w : World O) → (pid_file_path_from_initd_script O script w).1 ≡ w
unfolding pid_file_path_from_initd_script
pid_file_path_from_initd_script_world O script w = ground arith

module _ {H : Host} (config : LogConfig) where
  launch-Launches :
      (script : Bytes) (r : Runtime H)
      → Launches H r.world.state
          (pid_path H script r.world)
          config.use_native_logger
          r.steps
          (launch config script r)
  unfolding launch
  launch-Launches script r = go (H.executable r.world.state) refl
    where
      go :
          (executable : Result Bytes)
          → H.executable r.world.state ≡ executable
          → Launches H r.world.state
              (pid_path H script r.world)
              config.use_native_logger
              r.steps
              (executable_result config script executable r)
      go (err e) h =
          unfold executable_result in
          record { steps = []; course = no_executable e h; added = refl }
      go (ok exe) h =
          unfold executable_result find_pid_file create_pid_file in
          create_result-Launches r.world.state (pid_path H script r.world) config r.steps exe h _ _
            (ap (λ (w : World H.os). H.create_file w.state (pid_path H script r.world) 0o644)
              (sym (pid_file_path_from_initd_script_world H.os script r.world)))
            refl

  by_search-Launches :
      (script : Bytes) (found : Result (Option Bytes)) (w : World H.os) (r : Runtime H)
      → found ≡ ok (some script)
      → w ≡ r.world
      → Launches H r.world.state
          (pid_path H script r.world)
          config.use_native_logger
          r.steps
          (by_search config found (in_world w r))
  unfolding by_search
  by_search-Launches script (err e) w r found same = cc
  by_search-Launches script (ok none) w r found same = cc
  by_search-Launches script (ok (some other)) w r found same =
      let e : other ≡ script = cc in
      subst
        (λ u.
          Launches H r.world.state (pid_path H script r.world) config.use_native_logger r.steps
            (launch config other (in_world u r)))
        (sym same)
        (subst
          (λ p.
            Launches H r.world.state (pid_path H script r.world) config.use_native_logger r.steps
              (launch config p r))
          (sym e) (launch-Launches script r))

module _ (num_error : Bytes → Bytes) {H : Host} (config : LogConfig) (script : Bytes) where
  launch_or_serve-Launches :
      (r : Runtime H)
      → (is_initd_our_parent num_error H.os r.world).0 ≡ ok (some script)
      → Launches H r.world.state
          (pid_path H script r.world)
          config.use_native_logger
          r.steps
          (launch_or_serve num_error config r)
  unfolding launch_or_serve
  launch_or_serve-Launches r found =
      by_search-Launches config script _ _ r found
        (is_initd_our_parent_world num_error H.os r.world)

  -- Where there is no prompt and init.d is among the parents, `RunUntilExit` always returns, and
  -- never starts the application. It creates the PID file that the script names, or the default one
  -- where the script names none, starts the program's executable again with its own arguments and
  -- hands this file to that process, and writes the PID that the start gave to this file, as decimal
  -- digits and a line feed, in this order. The first call that fails ends it, with its error; it
  -- returns no error exactly if all of them succeed, the write included.
  pub systemv_run-Launches :
      (r : Runtime H)
      → is_daemon r ≡ true
      → (is_initd_our_parent num_error H.os r.world).0 ≡ ok (some script)
      → Launches H r.world.state
          (pid_path H script r.world)
          config.use_native_logger
          r.steps
          (systemv_run num_error config r)
  unfolding systemv_run with_flags
  systemv_run-Launches r on found =
      let logging : Runtime H = set_output r in
      let flagged : Runtime H = set_flags config.native_log_flags logging in
      let Goal : Exit × Runtime H → Type 0 = λ end.
        Launches H r.world.state (pid_path H script r.world) config.use_native_logger r.steps end in
      if-cases Goal (is_daemon r)
        (λ _.
          if-cases Goal config.use_native_logger
            (λ _.
              if-cases Goal (is_positive config.native_log_flags)
                (λ _.
                  finish-Launches r.log_flags (launch_or_serve num_error config flagged)
                    (launch_or_serve-Launches flagged found))
                (λ _. launch_or_serve-Launches logging found))
            (λ _. launch_or_serve-Launches r found))
        (λ off. absurd (cc (on, off)))

-- The two halves of the library together: where the script that started the process is the one
-- that the controller made, of texts that stand on one line each, the PID file that is created is
-- the one that this script reads, and the launch is as in `systemv_run-Launches`.
pub systemv_run-installed :
    (num_error : Bytes → Bytes) {H : Host} (config : LogConfig) (installed : ControllerConfig)
    (script : Bytes) (r : Runtime H)
    → FitsField installed.daemon_id
    → FitsField installed.description
    → FitsField installed.exe_path
    → FitsField (arguments_as_string installed)
    → FitsField installed.run_as
    → H.os.open_file r.world.state script
      ≡ ok (record { contents = init_script installed; read_error = none })
    → length (init_script installed) < read_limit
    → is_daemon r ≡ true
    → (is_initd_our_parent num_error H.os r.world).0 ≡ ok (some script)
    → Launches H r.world.state
        (default_pid_file_path installed.daemon_id)
        config.use_native_logger
        r.steps
        (systemv_run num_error config r)
unfolding pid_file_path_or_default
systemv_run-installed num_error {H} config installed script r id description exe args user opens
      short on found =
    let read =
      pid_file_path-handover installed id description exe args user H.os r.world script opens
        short in
    subst
      (λ path.
        Launches H r.world.state path config.use_native_logger r.steps
          (systemv_run num_error config r))
      (ap (λ (t : Result Bytes × World H.os). pid_file_path_or_default t.0 script) read)
      (systemv_run-Launches num_error config script r on found)
