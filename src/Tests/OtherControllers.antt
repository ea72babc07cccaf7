-- ===== src/Tests/OtherControllers.antt =====
-- The Windows and macOS controllers at work, and the contract of all controllers.
use cyberdaemon.Prelude.{
  ◌+◌, ◌*◌, ◌≤◌, false, List, [], ◌∷◌, ◌≡◌, ◌↔◌, refl, none, some, Bytes, codes, bytes_eq, ok,
  arith,
}
use cyberdaemon.Prelude.Int.{pos}
use cyberdaemon.Os.{World}
use cyberdaemon.Os.Simulated.{simulated-Spares}
use cyberdaemon.ServiceManager.{ServiceState}
use cyberdaemon.ServiceManager.Releasing.{SameHandles}
use cyberdaemon.Osutil.{cli_result}
use cyberdaemon.Control.{
  status_string, lookup_option, execute, uninstall_command, install_command, start_command,
  stop_command,
}
use cyberdaemon.Control.Contract.{IsFaithful, status-replay, replay, all_succeed, installed_by_all}
use cyberdaemon.Control.Systemd as Systemd
use cyberdaemon.Control.Systemd.Faithful as SystemdFaithful
use cyberdaemon.Control.ServiceStop.{stop_and_wait, default_service_stop_timeout, control_key}
use cyberdaemon.Control.ServiceStop.Releasing.{stop_and_wait-keys, keys_opened}
use cyberdaemon.Control.ServiceStop.Timeouts.{default_timeout-exact_iff}
use cyberdaemon.Control.ServiceStop.Waiting.{stop_and_wait-ok_iff, SeesStopped, seen}
use cyberdaemon.Control.Windows as Windows
use cyberdaemon.Control.Windows.Installing.{windows_install-Installs, Installs}
use cyberdaemon.Control.Windows.Faithful.{windows-IsFaithful}
use cyberdaemon.Control.Windows.Registering.{is_registered}
use cyberdaemon.Control.Windows.Releasing.{execute-releases}
use cyberdaemon.Control.Darwin as Darwin
use cyberdaemon.Control.Darwin.Building.{Built, new_darwin_controller-Built}
use cyberdaemon.Control.Darwin.Faithful.{darwin-IsFaithful}
use cyberdaemon.Tests.Fixtures.{systemd_fw, calm, calm_os, calm-IsLawful}
use cyberdaemon.Tests.SingleService.{ready_machine, ready_known, ready-IsLawful, ready_stops}
use cyberdaemon.Tests.Machines.{
  slow_machine, at_start, windows_fw, one_job, has_one_job, one_job-IsLawful, mac_config, mac_fw,
  no_job,
}

abbrev service : Bytes
service = codes "fw"

execute-releases_example :
    SameHandles
      (execute uninstall_command
        (Windows.controller (slow_machine none) windows_fw)
        at_start).1.held
      (at_start {source_error = none}).held
execute-releases_example =
    execute-releases (slow_machine none) windows_fw uninstall_command at_start

stop_and_wait-keys_example :
    (stop_and_wait (slow_machine none) service at_start).1.held.keys
    ≡ keys_opened
        ((slow_machine none).control_stop 0 service).1
        ((slow_machine none).open_key 0 control_key)
      + 0
stop_and_wait-keys_example = stop_and_wait-keys (slow_machine none) service at_start

stop_and_wait-ok_iff_example : ((stop_and_wait (slow_machine none) service at_start).0 ≡ ok tt) ↔ (
    (status : ServiceState) × ((((slow_machine none).control_stop 0 service).1 ≡ ok status)
      × SeesStopped (seen (slow_machine none) service 0 status)))
stop_and_wait-ok_iff_example = stop_and_wait-ok_iff (slow_machine none) service at_start

default_timeout-exact_iff_example :
    ((default_service_stop_timeout (slow_machine none) at_start).0 ≡ ok (pos (5000 * 1000000)))
    ↔ (5000 ≤ 9223372036854)
default_timeout-exact_iff_example =
    default_timeout-exact_iff (slow_machine none) at_start 5000 refl refl (ground arith)

-- The event source cannot be installed, and the service that was started is deleted again.
windows_install-Installs_example :
    Installs
      (slow_machine (some (codes "denied")))
      windows_fw
      at_start
      (Windows.install (slow_machine (some (codes "denied"))) windows_fw at_start).0
      (Windows.install (slow_machine (some (codes "denied"))) windows_fw at_start).1.journal
windows_install-Installs_example =
    windows_install-Installs (slow_machine (some (codes "denied"))) windows_fw at_start

windows-IsFaithful_example :
    IsFaithful
      (Windows.controller ready_machine windows_fw)
      (is_registered ready_machine ready_known windows_fw)
windows-IsFaithful_example =
    windows-IsFaithful ready_machine ready_known (λ h. h) ready-IsLawful ready_stops windows_fw

abbrev empty : World calm_os
empty = record { state = []; journal = [] }

abbrev commands : List Bytes
commands = install_command ∷ stop_command ∷ uninstall_command ∷ install_command ∷ start_command ∷ []

fw-IsFaithful :
    IsFaithful (Systemd.controller calm_os systemd_fw) (SystemdFaithful.has_unit calm_os systemd_fw)
fw-IsFaithful =
    SystemdFaithful.systemd-IsFaithful calm_os systemd_fw calm-IsLawful
      (simulated-Spares calm (pos 7) systemd_fw.systemctl_path systemd_fw.unit_file_path)

status-replay_example :
    (codes "running" ≡ codes "not_installed") ↔ (installed_by_all false commands ≡ false)
unfolding all_succeed bytes_eq codes execute Systemd.controller Systemd.install cli_result
    Systemd.uninstall Systemd.status replay status_string
status-replay_example =
    status-replay (Systemd.controller calm_os systemd_fw)
      (SystemdFaithful.has_unit calm_os systemd_fw) fw-IsFaithful commands empty (codes "running")
      refl refl

new_darwin_controller-Built_example : Built one_job mac_config false mac_fw
unfolding Darwin.new_darwin_controller lookup_option
new_darwin_controller-Built_example =
    new_darwin_controller-Built one_job mac_config no_job mac_fw refl

mac_fw-IsFaithful :
    IsFaithful (Darwin.controller one_job mac_fw) (λ w. has_one_job w.state mac_fw.config.label)
mac_fw-IsFaithful = darwin-IsFaithful one_job has_one_job mac_fw one_job-IsLawful
