-- ===== src/Control/Systemv/Faithful.antt =====
-- The System V controller keeps the contract of Control/Contract.antt: the daemon is installed where
-- its script is.
use cyberdaemon.Prelude.{Bool, ◌≡◌, refl, sym, ◌∙◌, ap, ok, if-cases, Result}
use cyberdaemon.Os.{Os, World, is_file}
use cyberdaemon.Os.Laws.{IsLawful, Spares}
use cyberdaemon.Control.{Status}
use cyberdaemon.Control.Contract.{IsFaithful}
use cyberdaemon.Control.Lsb.{ok-injective}
use cyberdaemon.Control.Systemv.{SystemvController, status, query_status, start, stop, controller}
use cyberdaemon.Control.Systemv.Statuses.{
  systemv_status-not_installed_iff, cli-Keeps, install-HasStat, uninstall-HasStat,
}

abbrev pub has_script : (O : Os) → SystemvController → World O → Bool
has_script O o w = is_file (O.stat w.state o.init_file_path)

module _ (O : Os) (o : SystemvController) (lawful : IsLawful O)
    (service_spares : Spares O o.service_path o.init_file_path)
    (chkconfig_spares : Spares O o.chkconfig o.init_file_path)
    (updatercd_spares : Spares O o.updatercd o.init_file_path) where
  has_script-status : (w : World O) → has_script O o (status O o w).1 ≡ has_script O o w
  unfolding status query_status
  has_script-status w =
      if-cases
        (λ (m : World O → Result Status × World O). has_script O o (m w).1 ≡ has_script O o w)
        (has_script O o w) (λ _. ap is_file (service_spares w.state _)) (λ _. refl)

  -- The System V controller keeps the contract of a controller, the daemon being installed exactly
  -- where there is a script, on a system that keeps the laws and whose service, chkconfig and
  -- update-rc.d tools leave the script where it is.
  pub systemv-IsFaithful : IsFaithful (controller O o) (has_script O o)
  unfolding controller start stop
  systemv-IsFaithful = record {
    status-says = λ w s h.
        let (there, back) = systemv_status-not_installed_iff O o lawful w in
        (λ e. there (h ∙ ap ok e), λ gone. ok-injective (sym h ∙ back gone));
    installed-status = has_script-status;
    installed-start = λ w. ap is_file (cli-Keeps O o _ _ _ service_spares w refl);
    installed-stop = λ w. ap is_file (cli-Keeps O o _ _ _ service_spares w refl);
    installed-install = λ w h.
        ap is_file
          (install-HasStat O o service_spares chkconfig_spares updatercd_spares lawful w h);
    installed-uninstall = λ w h. ap is_file (uninstall-HasStat O o lawful w h);
  }
