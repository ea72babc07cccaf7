-- ===== src/Control/Systemd/Statuses.antt =====
-- What `Status` of the systemd controller returns, also after `Install` and `Uninstall`.
use cyberdaemon.Prelude.{
  true, false, List, [], ◌∷◌, ◌≡◌, ◌≢◌, Bytes, codes, Bool-cases, inl, inr, arith, bytes_eq, ok,
  ◌↔◌, Option, none, some, ◌∙◌, ap, sym, subst, Result,
}
use cyberdaemon.Os.{Os, World, FileInfo, ExecResult, Action, ◌>>=◌, ◌>>◌, check, remove, is_file}
use cyberdaemon.Os.Laws.{IsLawful, Spares}
use cyberdaemon.Prelude.Keeps.{Keeps, Keeps-then, Keeps-pure, then-ok}
use cyberdaemon.Control.{start_immediately, start_on_load, not_installed}
use cyberdaemon.Control.Lsb.{
  ok-injective, lsb_but_two-ne-not_installed, status_of_result-lsb, lsb_but_two,
}
use cyberdaemon.Control.Systemd.{
  SystemdController, with_user_arg, systemctl, status, start, enable, reload, stop, write_unit,
  by_start_type, install, uninstall,
}

-- The answer of systemctl to the status command of a controller, in some state.
abbrev pub answer : (O : Os) → SystemdController → O.State → ExecResult
answer O o s =
    (O.execute s o.systemctl_path (with_user_arg o (codes "status" ∷ o.daemon_id ∷ []))).1

module _ (O : Os) (o : SystemdController) where
  -- Without a unit file the daemon is not installed, and nothing is asked of systemctl: the
  -- world stays as it is.
  pub systemd_status_missing :
      (w : World O)
      → is_file (O.stat w.state o.unit_file_path) ≡ false
      → status O o w ≡ (ok not_installed, w)
  unfolding status
  systemd_status_missing w h = rw h

  -- With a unit file, on a system that keeps the laws of Os/Laws.antt, `Status` never fails, and says
  -- what the exit status of systemctl means by the Linux Standard Base, except for the exit status
  -- 2: there the standard has a dead program with a lock file, and `Status` says unknown.
  pub systemd_status-lsb :
      IsLawful O
      → (w : World O) → is_file (O.stat w.state o.unit_file_path) ≡ true
      → (status O o w).0 ≡ ok (lsb_but_two (answer O o w.state).exit_code)
  unfolding status
  systemd_status-lsb lawful w h = rw h (
      ap ok (
        status_of_result-lsb o.systemctl_path (with_user_arg o (codes "status" ∷ o.daemon_id ∷ []))
          (answer O o w.state) (lawful.exit_code-success w.state _ _)))

  -- On a system that keeps the laws, `Status` answers `not_installed` exactly when there is no
  -- unit file.
  pub systemd_status-not_installed_iff :
      IsLawful O
      → (w : World O)
      → ((status O o w).0 ≡ ok not_installed) ↔ (is_file (O.stat w.state o.unit_file_path) ≡ false)
  systemd_status-not_installed_iff lawful w = (
    λ h. elim (Bool-cases (is_file (O.stat w.state o.unit_file_path))) [
      | inl here ↦ absurd (
          lsb_but_two-ne-not_installed (answer O o w.state).exit_code
            (ok-injective (sym (systemd_status-lsb lawful w here) ∙ h)))
      | inr gone ↦ gone
    ],
    λ gone. ap (λ t. t.0) (systemd_status_missing w gone),
  )

-- Commands of systemctl leave the unit file where it is.
module _ (O : Os) (o : SystemdController)
    (spares : Spares O o.systemctl_path o.unit_file_path) where
  abbrev pub HasStat : Option FileInfo → World O → Type 0
  HasStat info w = O.stat w.state o.unit_file_path ≡ info

  pub systemctl-Keeps :
      (info : Option FileInfo) (args : List Bytes) → Keeps (HasStat info) (systemctl O o args)
  unfolding systemctl
  systemctl-Keeps info args w h = ground (arith, spares w.state args)

  by_start_type-Keeps : (info : Option FileInfo) → Keeps (HasStat info) (by_start_type O o)
  unfolding by_start_type enable reload start
  by_start_type-Keeps info = elim (Bool-cases (bytes_eq o.start_type start_immediately)) [
    | inl e ↦ rw e (
        Keeps-then (HasStat info) (reload O o) (start O o >> enable O o) (systemctl-Keeps info _) (
          Keeps-then (HasStat info) (start O o) (enable O o) (systemctl-Keeps info _)
            (systemctl-Keeps info _)))
    | inr n ↦ elim (Bool-cases (bytes_eq o.start_type start_on_load)) [
      | inl e ↦ rw (n, e) (systemctl-Keeps info _)
      | inr d ↦ rw (n, d) (Keeps-pure (HasStat info))
    ]
  ]

  write_unit-file :
      IsLawful O
      → (w : World O) → (write_unit O o w).0 ≡ ok tt
      → HasStat (some (record { is_dir = false })) (write_unit O o w).1
  unfolding write_unit
  write_unit-file lawful w h =
      ground (arith, lawful.stat-write_file w.state o.unit_file_path o.unit_contents 0o644)

  remove_unit : Action O (Unit {0})
  remove_unit = remove O o.unit_file_path >>= check

  remove_unit-gone :
      IsLawful O → (w : World O) → (remove_unit w).0 ≡ ok tt → HasStat none (remove_unit w).1
  unfolding remove_unit
  remove_unit-gone lawful w h = ground (arith, lawful.stat-remove w.state o.unit_file_path)

  pub install-HasStat :
      IsLawful O
      → (w : World O) → (install O o w).0 ≡ ok tt
      → HasStat (some (record { is_dir = false })) (install O o w).1
  unfolding install
  install-HasStat lawful w h =
      let (written, rest) = then-ok (write_unit O o) (by_start_type O o) w h in
      subst (λ (t : Result (Unit {0}) × World O). HasStat (some (record { is_dir = false })) t.1)
        (sym rest) (by_start_type-Keeps _ (write_unit O o w).1 (write_unit-file lawful w written))

  pub uninstall-HasStat :
      IsLawful O → (w : World O) → (uninstall O o w).0 ≡ ok tt → HasStat none (uninstall O o w).1
  unfolding uninstall reload remove_unit
  uninstall-HasStat lawful w h =
      let stopped_world : World O = (stop O o w).1 in
      let (gone, rest) = then-ok remove_unit (reload O o) stopped_world h in
      subst (λ (t : Result (Unit {0}) × World O). HasStat none t.1) (sym rest)
        (systemctl-Keeps none _ (remove_unit stopped_world).1
          (remove_unit-gone lawful stopped_world gone))

  -- After a successful `Install`, whatever the start type, `Status` finds the daemon installed, on a
  -- system that keeps the laws and whose tools leave the unit file where it is.
  pub systemd_status-install :
      IsLawful O
      → (w : World O) → (install O o w).0 ≡ ok tt
      → (status O o (install O o w).1).0 ≢ ok not_installed
  systemd_status-install lawful w h listed = cc (
    ap is_file (install-HasStat lawful w h),
    (systemd_status-not_installed_iff O o lawful (install O o w).1).0 listed,
  )

  -- After a successful `Uninstall`, `Status` says that the daemon is not installed, on a system that
  -- keeps the laws and whose systemctl leaves the path of the unit file alone.
  pub systemd_status-uninstall :
      IsLawful O
      → (w : World O) → (uninstall O o w).0 ≡ ok tt
      → (status O o (uninstall O o w).1).0 ≡ ok not_installed
  systemd_status-uninstall lawful w h =
      ap (λ t. t.0)
        (systemd_status_missing O o (uninstall O o w).1 (ap is_file (uninstall-HasStat lawful w h)))
