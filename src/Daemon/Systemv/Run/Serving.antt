-- ===== src/Daemon/Systemv/Run/Serving.antt =====
-- The System V daemonizer where it runs the application, and the logger's flags on every branch.
use cyberdaemon.Prelude.{
  ℕ, true, List, ◌∷◌, ◌++◌, ◌≡◌, refl, ap, sym, subst, Bytes, Option, none, some, ok, err, Result,
  Bool-cases, inl, inr, ◌∙◌, if-cases,
}
use cyberdaemon.Prelude.Int.{ℤ}
use cyberdaemon.Os.{World}
use cyberdaemon.Control.{LogConfig}
use cyberdaemon.Daemon.{
  Host, Runtime, Step, Exit, returned, waiting, rewound, cut_off, closed_file, set_flags,
  set_output, finish, in_world,
}
use cyberdaemon.Daemon.Run.{is_daemon, is_positive, run_application, with_flags}
use cyberdaemon.Daemon.Run.Flags.{Returns, run_application_flags, with_flags_flags}
use cyberdaemon.Daemon.Run.Application.{Life, Lives, run_application-Lives}
use cyberdaemon.Daemon.Systemv.Parents.{is_initd_our_parent}
use cyberdaemon.Daemon.Systemv.Parents.Ancestors.{is_initd_our_parent_world}
use cyberdaemon.Daemon.Systemv.Run.{
  pid_file_descriptor, write_result, write_pid, start_result, start_daemon, create_result,
  create_pid_file, find_pid_file, executable_result, launch, clear_pid_file, serve, by_search,
  launch_or_serve, systemv_run,
}

module _ {H : Host} where
  write_result_flags :
      (failure : Option Bytes) (r : Runtime H) → (write_result failure r).1.log_flags ≡ r.log_flags
  unfolding write_result
  write_result_flags (some e) r = refl
  write_result_flags none r = refl

  start_result_flags :
      (file : ℕ) (started : Result ℤ) (r : Runtime H)
      → (start_result file started r).1.log_flags ≡ r.log_flags
  unfolding start_result write_pid
  start_result_flags file (err e) r = refl
  start_result_flags file (ok pid) r = write_result_flags _ _

  create_result_flags :
      (config : LogConfig) (exe : Bytes) (opened : Result ℕ) (r : Runtime H)
      → (create_result config exe opened r).1.log_flags ≡ r.log_flags
  unfolding create_result start_daemon
  create_result_flags config exe (err e) r = refl
  create_result_flags config exe (ok file) r = start_result_flags file _ _

  executable_result_flags :
      (config : LogConfig) (script : Bytes) (executable : Result Bytes) (r : Runtime H)
      → (executable_result config script executable r).1.log_flags ≡ r.log_flags
  unfolding executable_result find_pid_file create_pid_file
  executable_result_flags config script (err e) r = refl
  executable_result_flags config script (ok exe) r = create_result_flags config exe _ _

  launch_flags :
      (config : LogConfig) (script : Bytes) (r : Runtime H)
      → (launch config script r).1.log_flags ≡ r.log_flags
  unfolding launch
  launch_flags config script r = executable_result_flags config script _ r

  clear_flags : (end : Exit × Runtime H) → (finish clear_pid_file end).1.log_flags ≡ end.1.log_flags
  unfolding clear_pid_file
  clear_flags (returned e, r) = refl
  clear_flags (waiting, r) = refl

  serve_flags : (r : Runtime H) → (serve r).1.log_flags ≡ r.log_flags
  unfolding serve
  serve_flags r = elim (Bool-cases (H.is_descriptor r.world.state pid_file_descriptor)) [
    | inl there ↦ rw there (clear_flags (run_application r) ∙ run_application_flags r)
    | inr gone ↦ rw gone refl
  ]

-- What serving adds to the life of the application, the latest first: when it is over, the PID file
-- is set to its beginning, truncated and closed.
abbrev after_life : Exit → List Step → List Step
after_life (returned e) life =
    closed_file pid_file_descriptor
    ∷ cut_off pid_file_descriptor
    ∷ rewound pid_file_descriptor
    ∷ life
after_life waiting life = life

pub record Serves (H : Host) (r : Runtime H) (end : Exit × Runtime H) : Type 0 where
  pub life_steps : List Step
  pub life : Life H r.world.state end.0 life_steps
  pub added : end.1.steps ≡ after_life end.0 life_steps ++ r.steps

module _ {H : Host} where
  cleared-Serves :
      (r : Runtime H) (end : Exit × Runtime H)
      → Lives H r end
      → Serves H r (finish clear_pid_file end)
  unfolding clear_pid_file
  cleared-Serves r (returned e, after) h = record {
    life_steps = h.steps;
    life = h.life;
    added = ap (λ t. after_life (returned e) t) h.added;
  }
  cleared-Serves r (waiting, after) h = record {
    life_steps = h.steps;
    life = h.life;
    added = h.added;
  }

  serve-Serves :
      (r : Runtime H)
      → H.is_descriptor r.world.state pid_file_descriptor ≡ true
      → Serves H r (serve r)
  unfolding serve
  serve-Serves r there = rw there (cleared-Serves r (run_application r) (run_application-Lives r))

  finish-Serves :
      (flags : ℤ) (r : Runtime H) (end : Exit × Runtime H)
      → Serves H r end
      → Serves H r (finish (set_flags flags) end)
  finish-Serves flags r (returned e, after) h = record {
    life_steps = h.life_steps;
    life = h.life;
    added = h.added;
  }
  finish-Serves flags r (waiting, after) h = h

module _ (num_error : Bytes → Bytes) {H : Host} (config : LogConfig) where
  by_search_flags :
      (found : Result (Option Bytes)) (r : Runtime H)
      → (by_search config found r).1.log_flags ≡ r.log_flags
  unfolding by_search
  by_search_flags (err e) r = refl
  by_search_flags (ok none) r = serve_flags r
  by_search_flags (ok (some script)) r = launch_flags config script r

  launch_or_serve_flags :
      (r : Runtime H) → (launch_or_serve num_error config r).1.log_flags ≡ r.log_flags
  unfolding launch_or_serve
  launch_or_serve_flags r = by_search_flags _ (in_world _ r)

  -- When `RunUntilExit` returns, on whichever branch, the logger has the flags that it had before.
  pub systemv_run_flags :
      (r : Runtime H)
      → Returns (systemv_run num_error config r).0
      → (systemv_run num_error config r).1.log_flags ≡ r.log_flags
  unfolding systemv_run
  systemv_run_flags r =
      let Kept : Exit × Runtime H → Type 0 = λ end. Returns end.0 → end.1.log_flags ≡ r.log_flags in
      if-cases Kept (is_daemon r)
        (λ on.
          if-cases Kept config.use_native_logger
            (λ native h.
              with_flags_flags config (launch_or_serve num_error config) (set_output r)
                (launch_or_serve_flags _) h)
            (λ plain h. launch_or_serve_flags r))
        (λ off h. run_application_flags r)

  by_search-Serves :
      (found : Result (Option Bytes)) (w : World H.os) (r : Runtime H)
      → found ≡ ok none
      → w ≡ r.world
      → H.is_descriptor r.world.state pid_file_descriptor ≡ true
      → Serves H r (by_search config found (in_world w r))
  unfolding by_search
  by_search-Serves (err e) w r own same there = cc
  by_search-Serves (ok (some script)) w r own same there = cc
  by_search-Serves (ok none) w r own same there =
      subst (λ u. Serves H r (serve (in_world u r))) (sym same) (serve-Serves r there)

  launch_or_serve-Serves :
      (r : Runtime H)
      → (is_initd_our_parent num_error H.os r.world).0 ≡ ok none
      → H.is_descriptor r.world.state pid_file_descriptor ≡ true
      → Serves H r (launch_or_serve num_error config r)
  unfolding launch_or_serve
  launch_or_serve-Serves r own there =
      by_search-Serves _ _ r own (is_initd_our_parent_world num_error H.os r.world) there

  -- Where there is no prompt, init.d is not among the parents and the PID file is passed on, the
  -- application is started once, and stopped exactly if its start succeeded and a signal was
  -- received, and the result is the error of the start or that of the stop. When it returns, and
  -- only then, its last steps are to set the PID file to its beginning, to truncate and to close it.
  pub systemv_run-Serves :
      (r : Runtime H)
      → is_daemon r ≡ true
      → (is_initd_our_parent num_error H.os r.world).0 ≡ ok none
      → H.is_descriptor r.world.state pid_file_descriptor ≡ true
      → Serves H r (systemv_run num_error config r)
  unfolding systemv_run with_flags
  systemv_run-Serves r on own there =
      let logging : Runtime H = set_output r in
      let flagged : Runtime H = set_flags config.native_log_flags logging in
      if-cases (Serves H r) (is_daemon r)
        (λ _.
          if-cases (Serves H r) config.use_native_logger
            (λ _.
              if-cases (Serves H r) (is_positive config.native_log_flags)
                (λ _.
                  let h = launch_or_serve-Serves flagged own there in
                  finish-Serves r.log_flags r (launch_or_serve num_error config flagged)
                    (record { life_steps = h.life_steps; life = h.life; added = h.added }))
                (λ _.
                  let h = launch_or_serve-Serves logging own there in
                  record { life_steps = h.life_steps; life = h.life; added = h.added }))
            (λ _. launch_or_serve-Serves r own there))
        (λ off. absurd (cc (on, off)))
