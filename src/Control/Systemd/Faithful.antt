-- ===== src/Control/Systemd/Faithful.antt =====
-- The systemd controller keeps the contract of Control/Contract.antt: the daemon is installed where its
-- unit file is.
use cyberdaemon.Prelude.{Bool, ◌≡◌, refl, sym, ◌∙◌, ap, ok, if-cases, Result}
use cyberdaemon.Os.{Os, World, is_file}
use cyberdaemon.Os.Laws.{IsLawful, Spares}
use cyberdaemon.Control.{Status}
use cyberdaemon.Control.Contract.{IsFaithful}
use cyberdaemon.Control.Lsb.{ok-injective}
use cyberdaemon.Control.Systemd.{SystemdController, status, query_status, start, stop, controller}
use cyberdaemon.Control.Systemd.Statuses.{
  systemd_status-not_installed_iff, systemctl-Keeps, install-HasStat, uninstall-HasStat,
}

abbrev pub has_unit : (O : Os) → SystemdController → World O → Bool
has_unit O o w = is_file (O.stat w.state o.unit_file_path)

module _ (O : Os) (o : SystemdController) (lawful : IsLawful O)
    (spares : Spares O o.systemctl_path o.unit_file_path) where
  has_unit-status : (w : World O) → has_unit O o (status O o w).1 ≡ has_unit O o w
  unfolding status query_status
  has_unit-status w =
      if-cases (λ (m : World O → Result Status × World O). has_unit O o (m w).1 ≡ has_unit O o w)
        (has_unit O o w) (λ _. ap is_file (spares w.state _)) (λ _. refl)

  -- The systemd controller keeps the contract of a controller, the daemon being installed exactly
  -- where there is a unit file, on a system that keeps the laws and whose systemctl leaves the unit
  -- file where it is.
  pub systemd-IsFaithful : IsFaithful (controller O o) (has_unit O o)
  unfolding controller start stop
  systemd-IsFaithful = record {
    status-says = λ w s h.
        let (there, back) = systemd_status-not_installed_iff O o lawful w in
        (λ e. there (h ∙ ap ok e), λ gone. ok-injective (sym h ∙ back gone));
    installed-status = has_unit-status;
    installed-start = λ w. ap is_file (systemctl-Keeps O o spares _ _ w refl);
    installed-stop = λ w. ap is_file (systemctl-Keeps O o spares _ _ w refl);
    installed-install = λ w h. ap is_file (install-HasStat O o spares lawful w h);
    installed-uninstall = λ w h. ap is_file (uninstall-HasStat O o spares lawful w h);
  }
