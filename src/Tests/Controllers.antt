-- ===== src/Tests/Controllers.antt =====
-- Controllers at work.
use cyberdaemon.Prelude.{true, false, bytes_eq, [], ◌∷◌, ◌++◌, ◌≡◌, ◌↔◌, refl, codes, ok, err}
use cyberdaemon.Os.{World, wrote, ran}
use cyberdaemon.Os.Plans.{Progress, log}
use cyberdaemon.Osutil.{cli_result}
use cyberdaemon.Control.{stopped, execute, supported_commands}
use cyberdaemon.Control.Commands.{execute-refused_iff, contains}
use cyberdaemon.Control.Systemd
use cyberdaemon.Control.Systemd.Installing as SystemdInstalling
use cyberdaemon.Control.Systemd.Statuses as SystemdStatuses
use cyberdaemon.Control.Systemv
use cyberdaemon.Control.Systemv.Installing as SystemvInstalling
use cyberdaemon.Tests.Fixtures.{systemd_fw, systemv_fw, calm_os, broken_os, broken-IsLawful}

abbrev empty : World calm_os
empty = record { state = []; journal = [] }

-- Neither of the constants.
abbrev no_start_type : Systemv.SystemvController
no_start_type = record {
  service_path = systemv_fw.service_path;
  daemon_id = systemv_fw.daemon_id;
  init_contents = systemv_fw.init_contents;
  init_file_path = systemv_fw.init_file_path;
  start_type = [];
  is_red_hat = true;
  chkconfig = systemv_fw.chkconfig;
  updatercd = systemv_fw.updatercd;
  log_config = systemv_fw.log_config;
}

abbrev with_unit : World broken_os
with_unit = record { state = (systemd_fw.unit_file_path, []) ∷ []; journal = [] }

abbrev with_script : World broken_os
with_script = record { state = (systemv_fw.init_file_path, []) ∷ []; journal = [] }

systemd_install-Follows_example :
    Progress
      (Systemd.install calm_os systemd_fw empty)
      (SystemdInstalling.install_plan systemd_fw)
      empty
systemd_install-Follows_example = SystemdInstalling.systemd_install-Follows calm_os systemd_fw empty

-- All four calls of an installation that is started at once, the latest first.
installs_systemd :
    (Systemd.install calm_os systemd_fw empty).1.journal
    ≡ ran systemd_fw.systemctl_path (codes "enable" ∷ codes "fw" ∷ [])
      ∷ ran systemd_fw.systemctl_path (codes "start" ∷ codes "fw" ∷ [])
      ∷ ran systemd_fw.systemctl_path (codes "daemon-reload" ∷ [])
      ∷ wrote systemd_fw.unit_file_path systemd_fw.unit_contents 0o644
      ∷ []
unfolding Systemd.install codes bytes_eq cli_result
installs_systemd = refl

installed_systemd : (Systemd.install calm_os systemd_fw empty).0 ≡ ok tt
unfolding Systemd.install codes bytes_eq cli_result
installed_systemd = refl

uninstalled_systemd : (Systemd.uninstall calm_os systemd_fw empty).0 ≡ ok tt
unfolding Systemd.uninstall cli_result
uninstalled_systemd = refl

systemd_status-lsb_example : (Systemd.status broken_os systemd_fw with_unit).0 ≡ ok stopped
unfolding bytes_eq codes
systemd_status-lsb_example =
    SystemdStatuses.systemd_status-lsb broken_os systemd_fw broken-IsLawful with_unit refl

systemv_install-Follows_example :
    Progress
      (Systemv.install calm_os systemv_fw empty)
      (SystemvInstalling.install_plan systemv_fw)
      empty
systemv_install-Follows_example = SystemvInstalling.systemv_install-Follows calm_os systemv_fw empty

systemv_uninstall-Performs_example :
    (Systemv.uninstall broken_os systemv_fw with_script).1.journal
    ≡ log (SystemvInstalling.uninstall_plan systemv_fw) with_script.journal
systemv_uninstall-Performs_example =
    SystemvInstalling.systemv_uninstall-Performs broken_os systemv_fw with_script

-- All three calls of an installation that is started at once, the latest first.
installs_systemv :
    (Systemv.install calm_os systemv_fw empty).1.journal
    ≡ ran systemv_fw.chkconfig (codes "fw" ∷ codes "on" ∷ [])
      ∷ ran systemv_fw.service_path (codes "fw" ∷ codes "start" ∷ [])
      ∷ wrote systemv_fw.init_file_path systemv_fw.init_contents 0o755
      ∷ []
unfolding Systemv.install codes bytes_eq cli_result
installs_systemv = refl

installed_systemv : (Systemv.install calm_os systemv_fw empty).0 ≡ ok tt
unfolding Systemv.install codes bytes_eq cli_result
installed_systemv = refl

uninstalled_systemv : (Systemv.uninstall calm_os systemv_fw empty).0 ≡ ok tt
unfolding Systemv.uninstall cli_result
uninstalled_systemv = refl

execute-refused_iff_example :
    ((execute (codes "restart") (Systemd.controller calm_os systemd_fw) empty).0
      ≡ err (codes "unknown daemon command '" ++ codes "restart" ++ codes "'"))
    ↔ (contains supported_commands (codes "restart") ≡ false)
execute-refused_iff_example =
    execute-refused_iff (codes "restart") (Systemd.controller calm_os systemd_fw) empty
