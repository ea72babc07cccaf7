-- ===== src/Control/Darwin/Faithful.antt =====
-- The macOS controller keeps the contract of Control/Contract.antt: the daemon is installed where
-- launchd has a job of its label.
use cyberdaemon.Prelude.{
  Bool, true, false, ◌≡◌, ◌↔◌, refl, sym, ◌∙◌, ap, Option, none, some, Bytes, Result, ok, err,
  if-cases, check, continue,
}
use cyberdaemon.Prelude.Keeps.{then-ok}
use cyberdaemon.Launchd.{
  Mac, World, Task, JobStatus, job_not_installed, job_not_running, job_running, job_other, Call,
  installed, made_directory, removed,
}
use cyberdaemon.Launchd
use cyberdaemon.Launchd.Laws.{IsLawful}
use cyberdaemon.Control.{Status, not_installed}
use cyberdaemon.Control.Contract.{IsFaithful}
use cyberdaemon.Control.Darwin.{
  DarwinController, status_of_job, status, make_log_directory, install_job, install, uninstall,
  start, stop, controller,
}

status_of_job-not_installed_iff :
    (job : JobStatus) → (status_of_job job ≡ not_installed) ↔ (job ≡ job_not_installed)
unfolding status_of_job
status_of_job-not_installed_iff job_not_installed = (λ _. refl, λ _. refl)
status_of_job-not_installed_iff job_not_running = (λ h. cc, λ h. cc)
status_of_job-not_installed_iff job_running = (λ h. cc, λ h. cc)
status_of_job-not_installed_iff (job_other s) = (λ h. cc, λ h. cc)

module _ (M : Mac) (known : M.State → Bytes → Bool) (o : DarwinController M)
    (lawful : IsLawful M known) where
  abbrev has_job : World M → Bool
  has_job w = known w.state (M.get_label o.config)

  -- A call, by its outcome, and the look at its error.
  check_state : (failure : Option Bytes) (w : World M) → has_job (check failure w).1 ≡ has_job w
  check_state none w = refl
  check_state (some e) w = refl

  check_ok : (failure : Option Bytes) (w : World M) → (check failure w).0 ≡ ok tt → failure ≡ none
  check_ok none w h = refl
  check_ok (some e) w h = cc

  make_log_directory-has_job : (w : World M) → has_job (make_log_directory M o w).1 ≡ has_job w
  unfolding make_log_directory
  make_log_directory-has_job w =
      if-cases (λ (m : Task M (Unit {0})). has_job (m w).1 ≡ has_job w)
        o.log_config.use_native_logger (λ _. check_state _ _ ∙ lawful.known-mkdir_all w.state _ _ _)
        (λ _. refl)

  install_job-has_job :
      (w : World M) → (install_job M o w).0 ≡ ok tt → has_job (install_job M o w).1 ≡ true
  unfolding install_job
  install_job-has_job w h = check_state _ _ ∙ lawful.known-install w.state o.config (check_ok _ _ h)

  install-has_job : (w : World M) → (install M o w).0 ≡ ok tt → has_job (install M o w).1 ≡ true
  unfolding install
  install-has_job w h =
      let (made, rest) = then-ok (make_log_directory M o) (install_job M o) w h in
      ap (λ (end : Result (Unit {0}) × World M). has_job end.1) rest
      ∙ install_job-has_job (make_log_directory M o w).1 (ap (λ end. end.0) (sym rest) ∙ h)

  path-has_job :
      (r : Result Bytes) (w : World M)
      → M.get_file_path w.state o.config ≡ r
      → (continue r
          (λ path v.
            check
              (M.remove v.state path (M.get_kind o.config)).1
              (Launchd.remove M path (M.get_kind o.config) v).1)
          w).0
        ≡ ok tt
      → has_job
          (continue r
            (λ path v.
              check
                (M.remove v.state path (M.get_kind o.config)).1
                (Launchd.remove M path (M.get_kind o.config) v).1)
            w).1
        ≡ false
  path-has_job (ok path) w found h =
      check_state _ _ ∙ lawful.known-remove w.state o.config path found (check_ok _ _ h)
  path-has_job (err e) w found h = cc

  status-has_job :
      (r : Result JobStatus) (w : World M) (s : Status)
      → M.current_status w.state (M.get_label o.config) ≡ r
      → (continue r (λ job v. (ok (status_of_job job), v)) w).0 ≡ ok s
      → (s ≡ not_installed) ↔ (has_job w ≡ false)
  status-has_job (ok job) w s answered h =
      let e : status_of_job job ≡ s = cc in
      let (there, back) = lawful.status-known w.state (M.get_label o.config) job answered in
      let (read, give) = status_of_job-not_installed_iff job in
      (λ gone. there (read (e ∙ gone)), λ none_known. sym e ∙ give (back none_known))
  status-has_job (err e) w s answered h = cc

  status_world :
      (r : Result JobStatus) (w : World M)
      → has_job (continue r (λ job v. (ok (status_of_job job), v)) w).1 ≡ has_job w
  status_world (ok job) w = refl
  status_world (err e) w = refl

  -- The macOS controller keeps the contract of a controller, the daemon being installed exactly
  -- where launchd has a job of its label, if launchctlutil keeps its laws.
  pub darwin-IsFaithful : IsFaithful (controller M o) has_job
  unfolding controller status uninstall start stop
  darwin-IsFaithful = record {
    status-says = λ w s h. status-has_job _ w s refl h;
    installed-status = λ w. status_world _ w;
    installed-start = λ w. check_state _ _ ∙ lawful.known-start w.state _ _;
    installed-stop = λ w. check_state _ _ ∙ lawful.known-stop w.state _ _;
    installed-install = install-has_job;
    installed-uninstall = λ w h. path-has_job _ w refl h;
  }
