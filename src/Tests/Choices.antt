-- ===== src/Tests/Choices.antt =====
-- The choice of a controller, and what a controller reads of its configuration.
use cyberdaemon.Prelude.{
  Bool, true, false, [], ◌∷◌, ◌≡◌, ◌↔◌, refl, Bytes, codes, bytes_eq, ok, Lacks,
}
use cyberdaemon.Prelude.Int.{pos}
use cyberdaemon.Os.{World}
use cyberdaemon.Osutil.{cli_result, is_systemd, search_for_exe_in_paths}
use cyberdaemon.Text.FilePath.{join_path}
use cyberdaemon.Osutil.Detection.{has_systemctl, systemctl_code, is_systemd-found_iff}
use cyberdaemon.Osutil.Probes.{OnlyProbes}
use cyberdaemon.Control.Systemd.{
  SystemdController, new_systemd_controller, unit_options, user_unit_path, default_unit_path,
}
use cyberdaemon.Control.Systemd.Settings.{Carried, Owned, new_systemd_controller-owner}
use cyberdaemon.Control.Systemv.{check_script, init_script, script_values}
use cyberdaemon.Control.Systemv.Script.{init_script-fill, check_script-ok_iff}
use cyberdaemon.Control.Systemv.Template.{systemv_template}
use cyberdaemon.Control.Systemv.Template.Pieces.{Placeholder, fill}
use cyberdaemon.Control.Linux.{new_controller}
use cyberdaemon.Control.Linux.Choice.{new_controller-OnlyProbes}
use cyberdaemon.Control.Contract.{IsFaithful}
use cyberdaemon.Control.Linux.Faithful.{IsDaemonFile, new_controller-IsFaithful}
use cyberdaemon.Control.Systemd as Systemd
use cyberdaemon.Os.{is_file}
use cyberdaemon.Os.Simulated.{simulated-Spares}
use cyberdaemon.Tests.Fixtures.{config, current, serialize, calm, calm_os, calm-IsLawful}

abbrev with_systemctl : World calm_os
with_systemctl = record {
  state = (codes "/bin/systemctl", []) ∷ (codes "/usr/sbin/service", []) ∷ [];
  journal = [];
}

abbrev bare : World calm_os
bare = record { state = []; journal = [] }

abbrev made : SystemdController
made = record {
  systemctl_path = codes "/bin/systemctl";
  daemon_id = codes "fw";
  unit_file_path = codes "/etc/systemd/system/fw.service";
  unit_contents = codes "Description\nType\nExecStart\nRestart\nWantedBy\n";
  add_user_arg = false;
  start_type = config.start_type;
}

makes_systemd :
    new_systemd_controller calm_os serialize config
      (codes "/bin/systemctl")
      (is_systemd calm_os with_systemctl).1
    ≡ (ok made, (is_systemd calm_os with_systemctl).1)
unfolding new_systemd_controller is_systemd codes bytes_eq cli_result default_unit_path
makes_systemd = refl

new_controller-OnlyProbes_example :
    OnlyProbes [] (new_controller calm_os serialize config with_systemctl).1
new_controller-OnlyProbes_example =
    new_controller-OnlyProbes calm_os serialize config with_systemctl

is_systemd-found_iff_example :
    ((is_systemd calm_os with_systemctl).0 ≡ ok (codes "/bin/systemctl", true)) ↔ (
      (has_systemctl calm_os with_systemctl ≡ true)
      × (systemctl_code calm_os with_systemctl ≡ pos 0))
is_systemd-found_iff_example = is_systemd-found_iff calm_os with_systemctl

new_systemd_controller-owner_example :
    Carried config (codes "/bin/systemctl") made × Owned serialize config current made
unfolding new_systemd_controller codes bytes_eq default_unit_path
new_systemd_controller-owner_example =
    new_systemd_controller-owner calm_os serialize config (codes "/bin/systemctl") bare current refl
      refl

abbrev names : Bool → Bytes
names true = codes "Description\nType\nExecStart\nRestart\nWantedBy\nUser\n"
names false = codes "Description\nType\nExecStart\nRestart\nWantedBy\n"

serializes : (add_user : Bool) → serialize (unit_options config add_user) ≡ ok (names add_user)
unfolding unit_options codes
serializes true = refl
serializes false = refl

init_script-fill_example : init_script config ≡ fill (script_values config) systemv_template
init_script-fill_example = init_script-fill config

check_script-ok_iff_example :
    (check_script (init_script config) ≡ ok (init_script config))
    ↔ ((p : Placeholder) → Lacks b'^' (script_values config p))
check_script-ok_iff_example = check_script-ok_iff config

new_controller-IsFaithful_example :
    (p : Bytes) × (IsDaemonFile config p
      × IsFaithful (Systemd.controller calm_os made) (λ v. is_file (calm_os.stat v.state p)))
unfolding new_controller new_systemd_controller is_systemd codes bytes_eq cli_result
    default_unit_path search_for_exe_in_paths join_path
new_controller-IsFaithful_example =
    new_controller-IsFaithful calm_os config calm-IsLawful
      (λ exe p h. simulated-Spares calm (pos 7) exe p) serialize with_systemctl
      (Systemd.controller calm_os made) refl
