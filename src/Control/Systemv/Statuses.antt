-- ===== src/Control/Systemv/Statuses.antt =====
-- What `Status` of the System V controller returns, also after `Install` and `Uninstall`.
use cyberdaemon.Prelude.{
  true, false, List, [], ◌∷◌, ◌≡◌, ◌≢◌, Bytes, codes, Bool-cases, inl, inr, arith, bytes_eq, ok,
  ◌↔◌, Option, none, some, ◌∙◌, ap, sym, subst, Result,
}
use cyberdaemon.Os.{Os, World, FileInfo, ExecResult, Action, ◌>>=◌, check, remove, is_file}
use cyberdaemon.Os.Laws.{IsLawful, Spares}
use cyberdaemon.Prelude.Keeps.{Keeps, Keeps-then, Keeps-pure, then-ok}
use cyberdaemon.Control.{start_immediately, start_on_load, manual_start, not_installed}
use cyberdaemon.Control.Lsb.{
  ok-injective, lsb_but_two-ne-not_installed, status_of_result-lsb, lsb_but_two,
}
use cyberdaemon.Control.Systemv.{
  SystemvController, cli, status, start, enable, disable, stop, write_script, by_start_type,
  install, uninstall,
}

-- The answer of the service tool to the status command of a controller, in some state.
abbrev pub answer : (O : Os) → SystemvController → O.State → ExecResult
answer O o s = (O.execute s o.service_path (o.daemon_id ∷ codes "status" ∷ [])).1

module _ (O : Os) (o : SystemvController) where
  -- Without a script the daemon is not installed, and nothing is asked of the service tool: the
  -- world stays as it is.
  pub systemv_status_missing :
      (w : World O)
      → is_file (O.stat w.state o.init_file_path) ≡ false
      → status O o w ≡ (ok not_installed, w)
  unfolding status
  systemv_status_missing w h = rw h

  -- With a script, on a system that keeps the laws of Os/Laws.antt, `Status` never fails, and says
  -- what the exit status of the service tool means by the Linux Standard Base, except for the exit status
  -- 2: there the standard has a dead program with a lock file, and `Status` says unknown.
  pub systemv_status-lsb :
      IsLawful O
      → (w : World O) → is_file (O.stat w.state o.init_file_path) ≡ true
      → (status O o w).0 ≡ ok (lsb_but_two (answer O o w.state).exit_code)
  unfolding status
  systemv_status-lsb lawful w h = rw h (
      ap ok (
        status_of_result-lsb o.service_path (o.daemon_id ∷ codes "status" ∷ []) (answer O o w.state)
          (lawful.exit_code-success w.state _ _)))

  -- On a system that keeps the laws, `Status` answers `not_installed` exactly when there is no
  -- script.
  pub systemv_status-not_installed_iff :
      IsLawful O
      → (w : World O)
      → ((status O o w).0 ≡ ok not_installed) ↔ (is_file (O.stat w.state o.init_file_path) ≡ false)
  systemv_status-not_installed_iff lawful w = (
    λ h. elim (Bool-cases (is_file (O.stat w.state o.init_file_path))) [
      | inl here ↦ absurd (
          lsb_but_two-ne-not_installed (answer O o w.state).exit_code
            (ok-injective (sym (systemv_status-lsb lawful w here) ∙ h)))
      | inr gone ↦ gone
    ],
    λ gone. ap (λ t. t.0) (systemv_status_missing w gone),
  )

-- Commands of an executable that spares the script leave it where it is.
module _ (O : Os) (o : SystemvController) where
  abbrev pub HasStat : Option FileInfo → World O → Type 0
  HasStat info w = O.stat w.state o.init_file_path ≡ info

  pub cli-Keeps :
      (info : Option FileInfo) (exe : Bytes) (args : List Bytes)
      → Spares O exe o.init_file_path
      → Keeps (HasStat info) (cli O exe args)
  unfolding cli
  cli-Keeps info exe args spares w h = ground (arith, spares w.state args)

module _ (O : Os) (o : SystemvController)
    (service_spares : Spares O o.service_path o.init_file_path)
    (chkconfig_spares : Spares O o.chkconfig o.init_file_path)
    (updatercd_spares : Spares O o.updatercd o.init_file_path) where
  enable-Keeps : (info : Option FileInfo) → Keeps (HasStat O o info) (enable O o)
  unfolding enable
  enable-Keeps info = elim (Bool-cases o.is_red_hat) [
    | inl e ↦ rw e (cli-Keeps O o info o.chkconfig _ chkconfig_spares)
    | inr e ↦ rw e (cli-Keeps O o info o.updatercd _ updatercd_spares)
  ]

  disable-Keeps : (info : Option FileInfo) → Keeps (HasStat O o info) (disable O o)
  unfolding disable
  disable-Keeps info = elim (Bool-cases o.is_red_hat) [
    | inl e ↦ rw e (cli-Keeps O o info o.chkconfig _ chkconfig_spares)
    | inr e ↦ rw e (cli-Keeps O o info o.updatercd _ updatercd_spares)
  ]

  by_start_type-Keeps : (info : Option FileInfo) → Keeps (HasStat O o info) (by_start_type O o)
  unfolding by_start_type start
  by_start_type-Keeps info = elim (Bool-cases (bytes_eq o.start_type start_immediately)) [
    | inl e ↦ rw e (
        Keeps-then (HasStat O o info) (start O o) (enable O o)
          (cli-Keeps O o info o.service_path _ service_spares) (enable-Keeps info))
    | inr n ↦ elim (Bool-cases (bytes_eq o.start_type start_on_load)) [
      | inl e ↦ rw (n, e) (enable-Keeps info)
      | inr d ↦ elim (Bool-cases (bytes_eq o.start_type manual_start)) [
        | inl e ↦ rw (n, d, e) (disable-Keeps info)
        | inr m ↦ rw (n, d, m) (Keeps-pure (HasStat O o info))
      ]
    ]
  ]

  write_script-file :
      IsLawful O
      → (w : World O) → (write_script O o w).0 ≡ ok tt
      → HasStat O o (some (record { is_dir = false })) (write_script O o w).1
  unfolding write_script
  write_script-file lawful w h =
      ground (arith, lawful.stat-write_file w.state o.init_file_path o.init_contents 0o755)

  pub install-HasStat :
      IsLawful O
      → (w : World O) → (install O o w).0 ≡ ok tt
      → HasStat O o (some (record { is_dir = false })) (install O o w).1
  unfolding install
  install-HasStat lawful w h =
      let (written, rest) = then-ok (write_script O o) (by_start_type O o) w h in
      subst
        (λ (t : Result (Unit {0}) × World O). HasStat O o (some (record { is_dir = false })) t.1)
        (sym rest)
        (by_start_type-Keeps _ (write_script O o w).1 (write_script-file lawful w written))

  -- After a successful `Install`, whatever the start type, `Status` finds the daemon installed, on a
  -- system that keeps the laws and whose tools leave the script where it is.
  pub systemv_status-install :
      IsLawful O
      → (w : World O) → (install O o w).0 ≡ ok tt
      → (status O o (install O o w).1).0 ≢ ok not_installed
  systemv_status-install lawful w h listed = cc (
    ap is_file (install-HasStat lawful w h),
    (systemv_status-not_installed_iff O o lawful (install O o w).1).0 listed,
  )

module _ (O : Os) (o : SystemvController) where
  remove_script : Action O (Unit {0})
  remove_script = remove O o.init_file_path >>= check

  remove_script-gone :
      IsLawful O
      → (w : World O) → (remove_script w).0 ≡ ok tt
      → HasStat O o none (remove_script w).1
  unfolding remove_script
  remove_script-gone lawful w h = ground (arith, lawful.stat-remove w.state o.init_file_path)

  pub uninstall-HasStat :
      IsLawful O
      → (w : World O) → (uninstall O o w).0 ≡ ok tt
      → HasStat O o none (uninstall O o w).1
  unfolding uninstall remove_script
  uninstall-HasStat lawful w h = remove_script-gone lawful (stop O o w).1 h

  -- After a successful `Uninstall`, `Status` says that the daemon is not installed, on a system that
  -- keeps the laws.
  pub systemv_status-uninstall :
      IsLawful O
      → (w : World O) → (uninstall O o w).0 ≡ ok tt
      → (status O o (uninstall O o w).1).0 ≡ ok not_installed
  systemv_status-uninstall lawful w h =
      ap (λ t. t.0)
        (systemv_status_missing O o (uninstall O o w).1 (ap is_file (uninstall-HasStat lawful w h)))
