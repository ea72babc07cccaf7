-- ===== src/Tests/Fixtures.antt =====
-- A configuration, a controller of each kind for it, and systems to run them on.
use cyberdaemon.Prelude.{true, false, List, [], ◌∷◌, ◌++◌, refl, Bytes, codes, ok, Result}
use cyberdaemon.Prelude.Int.{pos}
use cyberdaemon.Os.{Os, World, User}
use cyberdaemon.Os.Laws.{IsLawful}
use cyberdaemon.Os.Simulated.{simulated, simulated-IsLawful, succeeds, fails, Commands, Files}
use cyberdaemon.Control.{ControllerConfig, start_immediately}
use cyberdaemon.Control.Systemd.{SystemdController, UnitOption}
use cyberdaemon.Control.Systemv.{SystemvController}

abbrev pub config : ControllerConfig
config = record {
  daemon_id = codes "fw";
  description = codes "Writes a file.";
  exe_path = codes "/usr/bin/fw";
  arguments = codes "-v" ∷ [];
  run_as = [];
  start_type = start_immediately;
  log_config = record { use_native_logger = true; native_log_flags = pos 0 };
  system_specific_options = [];
}

abbrev pub current : User
current = record { username = codes "dude"; home_dir = codes "/home/dude" }

-- The names of the options only, one to a line.
abbrev pub serialize : List UnitOption → Result Bytes
serialize options = ok (names options)
  where
    names : List UnitOption → Bytes
    names [] = []
    names (o ∷ os) = o.name ++ (b'\n' ∷ names os)

abbrev pub systemd_fw : SystemdController
systemd_fw = record {
  systemctl_path = codes "/bin/systemctl";
  daemon_id = codes "fw";
  unit_file_path = codes "/etc/systemd/system/fw.service";
  unit_contents = codes "[Unit]";
  add_user_arg = false;
  start_type = start_immediately;
}

abbrev pub systemv_fw : SystemvController
systemv_fw = record {
  service_path = codes "/sbin/service";
  daemon_id = codes "fw";
  init_contents = codes "#!/bin/sh";
  init_file_path = codes "/etc/init.d/fw";
  start_type = start_immediately;
  is_red_hat = true;
  chkconfig = codes "/sbin/chkconfig";
  updatercd = codes "/sbin/chkconfig";
  log_config = config.log_config;
}

-- Every command succeeds and prints nothing.
abbrev pub calm : Commands
calm exe args = succeeds []

-- Every command fails with status 3.
abbrev pub broken : Commands
broken exe args = fails 3

abbrev pub calm_os : Os
calm_os = simulated calm (pos 7)

abbrev pub broken_os : Os
broken_os = simulated broken (pos 7)

abbrev pub start_files : Files → World calm_os
start_files files = record { state = files; journal = [] }

pub calm-IsLawful : IsLawful calm_os
calm-IsLawful = simulated-IsLawful calm (pos 7) (λ exe args h. refl)

pub broken-IsLawful : IsLawful broken_os
broken-IsLawful = simulated-IsLawful broken (pos 7) (λ exe args h. cc)
