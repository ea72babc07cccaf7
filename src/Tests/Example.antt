-- ===== src/Tests/Example.antt =====
-- The example program at work.
use cyberdaemon.Prelude.{true, false, [], ◌≡◌, ◌↔◌, refl, none, codes, ok, bytes_eq}
use cyberdaemon.Prelude.Int.{pos}
use cyberdaemon.Os.{World}
use cyberdaemon.Os.Simulated.{simulated-Spares}
use cyberdaemon.Osutil.{cli_result}
use cyberdaemon.Control.{install_command, uninstall_command, status_string, execute}
use cyberdaemon.Control.Contract.{IsFaithful, changes}
use cyberdaemon.Control.Systemd as Systemd
use cyberdaemon.Control.Systemd.Faithful as SystemdFaithful
use cyberdaemon.Filewriter.{
  rejoined, no_rejoin, returned, answering, unwinding, ticker_stopped, ended, Output, both, Moves,
  here, then_, call_stop, tick, hand_over, rejoin, rejoin_timeout, unwind_ticker, just_started,
}
use cyberdaemon.Filewriter.Stopping.{IsIntact, rejoined-quiet, unrejoined-stuck}
use cyberdaemon.Filewriter.Returning.{steps_left, stop-terminates}
use cyberdaemon.Filewriter.{Both, Move, joining}
use cyberdaemon.Prelude.{◌⊎◌, ◌<◌}
use cyberdaemon.Filewriter.Program.{Setting, main}
use cyberdaemon.Filewriter.Program.Commands.{main_status}
use cyberdaemon.Tests.Fixtures.{systemd_fw, calm, calm_os, calm-IsLawful}

abbrev one_line : Output
one_line = record { lines = 1; ticking = true; removed = false; closed = false }

abbrev off : Output
off = record { lines = 1; ticking = false; removed = false; closed = false }

-- A line is written, and the loop rejoins: the file is still there when `Stop` returns.
rejoined_run : Moves just_started (both one_line (returned rejoined) unwinding)
rejoined_run = then_ (then_ (then_ (then_ here tick) call_stop) hand_over) rejoin

unrejoined_run : Moves just_started (both one_line (returned no_rejoin) answering)
unrejoined_run = then_ (then_ (then_ (then_ here call_stop) tick) hand_over) rejoin_timeout

rejoined-quiet_example :
    (off.lines ≡ one_line.lines)
    × ((end : Output) × Moves
          (both off (returned rejoined) ticker_stopped)
          (both end (returned rejoined) ended))
rejoined-quiet_example = rejoined-quiet rejoined_run (then_ here unwind_ticker)

unrejoined-stuck_example :
    (both one_line (returned no_rejoin) answering ≡ both one_line (returned no_rejoin) answering)
    × IsIntact one_line
unrejoined-stuck_example = unrejoined-stuck unrejoined_run here

stop-terminates_example :
    ((c : Both)
      → Move (both one_line joining answering) c
      → (c.stopper ≡ joining) ⊎ (steps_left c.stopper < 1))
    × ((steps_left joining ≡ 0)
        ⊎ ((c : Both) × (Move (both one_line joining answering) c × (steps_left c.stopper < 1))))
stop-terminates_example = stop-terminates (both one_line joining answering)

-- The example on a system with systemd.
abbrev on_systemd : Setting (World calm_os)
on_systemd = record {
  goos = codes "linux";
  executable = λ w. ok (codes "/usr/bin/fw");
  new_controller = λ config w. (ok (Systemd.controller calm_os systemd_fw), w);
  run_until_exit = λ log_config w. (none, w);
}

abbrev empty : World calm_os
empty = record { state = []; journal = [] }

example-IsFaithful :
    IsFaithful (Systemd.controller calm_os systemd_fw) (SystemdFaithful.has_unit calm_os systemd_fw)
example-IsFaithful =
    SystemdFaithful.systemd-IsFaithful calm_os systemd_fw calm-IsLawful
      (simulated-Spares calm (pos 7) systemd_fw.systemctl_path systemd_fw.unit_file_path)

main_status_example :
    (codes "running" ≡ codes "not_installed") ↔ (install_command ≡ uninstall_command)
unfolding changes bytes_eq codes main execute Systemd.controller Systemd.install cli_result
    Systemd.status status_string
main_status_example =
    main_status on_systemd (Systemd.controller calm_os systemd_fw) (codes "/usr/bin/fw")
      (SystemdFaithful.has_unit calm_os systemd_fw) example-IsFaithful (λ w. refl) (λ w. refl)
      (λ w. refl) install_command empty (codes "running") refl refl refl
