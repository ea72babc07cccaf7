-- ===== src/Osutil/Probes.antt =====
-- That looking for a service manager runs nothing but tools without arguments.
use cyberdaemon.Prelude.{
  Bool, true, false, List, [], ◌∷◌, ◌++◌, ◌≡◌, refl, sym, ap, Bytes, ok, err, Result, All, subst,
}
use cyberdaemon.Os.{Os, World, Event, wrote, removed, ran, try}
use cyberdaemon.Prelude.Keeps.{Keeps, Keeps-bind}
use cyberdaemon.Osutil.{
  is_systemd, is_systemv, try_systemctl, try_service, service_tools, search_for_exe_in_paths,
  run_daemon_cli, systemctl_exe_name, systemctl_exe_dir_paths, service_exe_name,
  service_exe_dir_paths,
}
use cyberdaemon.Osutil.Detection.{search_for_exe_in_paths_world}

-- A tool that is run with no arguments, which for these tools prints a help text or a list.
abbrev pub IsProbe : Event → Type 0
IsProbe (wrote p contents perm) = ⊥
IsProbe (removed p) = ⊥
IsProbe (ran exe args) = args ≡ []

-- Nothing but such probes happened since a journal was as given.
pub record OnlyProbes {O : Os} (journal : List Event) (w : World O) : Type 0 where
  pub probes : List Event
  pub are_probes : All IsProbe probes
  pub logged : w.journal ≡ probes ++ journal

module _ (O : Os) (journal : List Event) where
  abbrev pub Since : World O → Type 0
  Since w = OnlyProbes journal w

  pub search-Keeps :
      (exe_name : Bytes) (dirs : List Bytes) → Keeps Since (search_for_exe_in_paths O exe_name dirs)
  search-Keeps exe_name dirs w h =
      subst Since (sym (search_for_exe_in_paths_world O w exe_name dirs)) h

  probe-Keeps : (path : Bytes) → Keeps Since (run_daemon_cli O path [])
  unfolding run_daemon_cli
  probe-Keeps path w h = record {
    probes = ran path [] ∷ h.probes;
    are_probes = (refl, h.are_probes);
    logged = ap (λ t. ran path [] ∷ t) h.logged;
  }

  try_systemctl-Keeps : (found : Result Bytes) → Keeps Since (try_systemctl O found)
  unfolding try_systemctl run_daemon_cli
  try_systemctl-Keeps (err e) w h = h
  try_systemctl-Keeps (ok path) w h = probe-Keeps path w h

  service_tools-Keeps : (path : Bytes) (answers : Bool) → Keeps Since (service_tools O path answers)
  unfolding service_tools
  service_tools-Keeps path true w h = h
  service_tools-Keeps path false w h = h

  try_service-Keeps : (found : Result Bytes) → Keeps Since (try_service O found)
  unfolding try_service run_daemon_cli
  try_service-Keeps (err e) w h = h
  try_service-Keeps (ok path) w h =
      service_tools-Keeps path _ (run_daemon_cli O path [] w).1 (probe-Keeps path w h)

  pub is_systemd-Keeps : Keeps Since (is_systemd O)
  unfolding is_systemd
  is_systemd-Keeps =
      Keeps-bind Since (try (search_for_exe_in_paths O systemctl_exe_name systemctl_exe_dir_paths))
        (try_systemctl O) (search-Keeps systemctl_exe_name systemctl_exe_dir_paths)
        try_systemctl-Keeps

  pub is_systemv-Keeps : Keeps Since (is_systemv O)
  unfolding is_systemv
  is_systemv-Keeps =
      Keeps-bind Since (try (search_for_exe_in_paths O service_exe_name service_exe_dir_paths))
        (try_service O) (search-Keeps service_exe_name service_exe_dir_paths) try_service-Keeps
