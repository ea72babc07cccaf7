-- ===== src/Control/Linux/Choice.antt =====
-- Which service manager `NewController` of control/controller_linux.go settles on.
use cyberdaemon.Prelude.{
  Bool, true, false, List, [], ◌≡◌, refl, sym, Bytes, codes, Bool-cases, inl, inr, arith, ok, IsErr,
  Result, subst, if◌then◌else◌,
}
use cyberdaemon.Prelude.Int.{pos}
use cyberdaemon.Os.{Os, World, Event, ◌>>=◌}
use cyberdaemon.Prelude.Keeps.{Keeps, Keeps-bind}
use cyberdaemon.Osutil.{
  SystemvTools, is_systemd, is_systemv, chkconfig_path, updatercd_path, service_exe_dir_paths,
  chkconfig_exe_name, updatercd_exe_name,
}
use cyberdaemon.Osutil.Probes.{OnlyProbes, Since, search-Keeps, is_systemd-Keeps, is_systemv-Keeps}
use cyberdaemon.Osutil.Detection.{
  has_systemctl, has_file, is_systemd-found_iff, systemctl_code, is_systemd_absent,
  is_systemv_absent,
}
use cyberdaemon.Control.{ControllerConfig}
use cyberdaemon.Control.Systemd
use cyberdaemon.Control.Systemd.{UnitOption, SystemdController, new_systemd_controller}
use cyberdaemon.Control.Systemd.Settings.{new_systemd_controller_world}
use cyberdaemon.Control.Systemv.{new_systemv_controller}
use cyberdaemon.Control.Linux.{systemd_controller, systemv_controller, new_controller}

module _ (O : Os) (serialize : List UnitOption → Result Bytes) (config : ControllerConfig)
    (journal : List Event) where
  new_systemd_controller-Keeps :
      (path : Bytes) → Keeps (Since O journal) (systemd_controller O serialize config path)
  unfolding systemd_controller
  new_systemd_controller-Keeps path =
      Keeps-bind (Since O journal) (new_systemd_controller O serialize config path) _
        (λ w h.
          subst (Since O journal) (sym (new_systemd_controller_world O serialize config path w)) h)
        (λ o w h. h)

  new_systemv_controller-Keeps :
      (path : Bytes) (is_red_hat : Bool)
      → Keeps (Since O journal) (new_systemv_controller O config path is_red_hat)
  unfolding new_systemv_controller chkconfig_path updatercd_path
  new_systemv_controller-Keeps path is_red_hat w h = ground (
    arith,
    search-Keeps O journal chkconfig_exe_name service_exe_dir_paths w h,
    search-Keeps O journal updatercd_exe_name service_exe_dir_paths w h,
  )

  systemv_controller-Keeps :
      (tools : SystemvTools) → Keeps (Since O journal) (systemv_controller O serialize config tools)
  unfolding systemv_controller
  systemv_controller-Keeps tools = elim (Bool-cases tools.found) [
    | inl e ↦ rw e (
        Keeps-bind (Since O journal)
          (new_systemv_controller O config tools.service_path tools.is_red_hat) _
          (new_systemv_controller-Keeps tools.service_path tools.is_red_hat) (λ o w h. h))
    | inr e ↦ rw e (λ w h. h)
  ]

-- Choosing and making a controller changes nothing: no file is written or removed, and all that is
-- run are tools without arguments, on every branch and whatever they answer.
pub new_controller-OnlyProbes :
    (O : Os) (serialize : List UnitOption → Result Bytes) (config : ControllerConfig) (w : World O)
    → OnlyProbes w.journal (new_controller O serialize config w).1
unfolding new_controller
new_controller-OnlyProbes O serialize config w =
    Keeps-bind (Since O w.journal) (is_systemd O) _ (is_systemd-Keeps O w.journal) by_answer w
      (record { probes = []; are_probes = tt; logged = refl })
  where
    by_answer :
        (answer : Bytes × Bool)
        → Keeps (Since O w.journal) (
            if answer.1
            then systemd_controller O serialize config answer.0
            else is_systemv O >>= systemv_controller O serialize config)
    by_answer (path, true) = new_systemd_controller-Keeps O serialize config w.journal path
    by_answer (path, false) =
        Keeps-bind (Since O w.journal) (is_systemv O) (systemv_controller O serialize config)
          (is_systemv-Keeps O w.journal) (systemv_controller-Keeps O serialize config w.journal)

-- Where /bin/systemctl is a file and exits with status 0, the controller is the one for systemd,
-- made with that path, whenever that one can be made, whatever else the system has.
pub new_controller-systemd :
    (O : Os) (serialize : List UnitOption → Result Bytes) (config : ControllerConfig) (w : World O)
    {c : SystemdController}
    → has_systemctl O w ≡ true
    → systemctl_code O w ≡ pos 0
    → (new_systemd_controller O serialize config (codes "/bin/systemctl") (is_systemd O w).1).0
      ≡ ok c
    → (new_controller O serialize config w).0 ≡ ok (Systemd.controller O c)
unfolding new_controller systemd_controller
new_controller-systemd O serialize config w {c} here zero_code made =
    let found : (is_systemd O w).0 ≡ ok (codes "/bin/systemctl", true) =
      (is_systemd-found_iff O w).1 (here, zero_code) in
    rw (found, made)

-- Where there is no /bin/systemctl and no service tool, there is no controller, and nothing is run.
pub new_controller-neither :
    (O : Os) (serialize : List UnitOption → Result Bytes) (config : ControllerConfig) (w : World O)
    → has_systemctl O w ≡ false
    → has_file O w (codes "/sbin/service") ≡ false
    → has_file O w (codes "/usr/sbin/service") ≡ false
    → IsErr (new_controller O serialize config w).0 × ((new_controller O serialize config w).1 ≡ w)
unfolding new_controller systemv_controller
new_controller-neither O serialize config w no_systemctl no_sbin no_usr_sbin =
    rw (is_systemd_absent O w no_systemctl, is_systemv_absent O w no_sbin no_usr_sbin) (tt, refl)
