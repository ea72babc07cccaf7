-- ===== src/Control/Systemv/Installing.antt =====
-- What `Install` and `Uninstall` of the System V controller do to the system, in which order.
use cyberdaemon.Prelude.{
  false, List, [], ◌∷◌, ◌≡◌, Bytes, codes, bytes_eq, Bool-cases, inl, inr, if◌then◌else◌, arith, ap,
  ◌∙◌,
}
use cyberdaemon.Os.{Os, World, Event, wrote, removed, ran, check, ◌>>=◌, remove}
use cyberdaemon.Os.Plans.{Performs, Follows, Follows-of_Performs, Follows-pure, Follows-first}
use cyberdaemon.Control.{start_immediately, start_on_load, manual_start}
use cyberdaemon.Control.Systemv.{
  SystemvController, cli, start, stop, enable, disable, write_script, by_start_type, install,
  uninstall,
}

-- The command that has the daemon start, or not start, with the system.
abbrev pub enable_event : SystemvController → Event
enable_event o =
    if o.is_red_hat
    then ran o.chkconfig (o.daemon_id ∷ codes "on" ∷ [])
    else ran o.updatercd (o.daemon_id ∷ codes "defaults" ∷ [])

abbrev pub disable_event : SystemvController → Event
disable_event o =
    if o.is_red_hat
    then ran o.chkconfig (o.daemon_id ∷ codes "off" ∷ [])
    else ran o.updatercd (o.daemon_id ∷ codes "disable" ∷ [])

abbrev pub service_event : SystemvController → Bytes → Event
service_event o action = ran o.service_path (o.daemon_id ∷ action ∷ [])

-- What follows the script for each start type.
abbrev pub start_plan : SystemvController → List Event
start_plan o =
    if bytes_eq o.start_type start_immediately
    then service_event o (codes "start") ∷ enable_event o ∷ []
    else if bytes_eq o.start_type start_on_load
    then enable_event o ∷ []
    else if bytes_eq o.start_type manual_start
    then disable_event o ∷ []
    else []

abbrev pub install_plan : SystemvController → List Event
install_plan o = wrote o.init_file_path o.init_contents 0o755 ∷ start_plan o

abbrev pub uninstall_plan : SystemvController → List Event
uninstall_plan o = service_event o (codes "stop") ∷ removed o.init_file_path ∷ []

module _ (O : Os) (o : SystemvController) where
  cli-Performs : (exe : Bytes) (args : List Bytes) → Performs (cli O exe args) (ran exe args ∷ [])
  unfolding cli
  cli-Performs exe args w = ground arith

  cli-Follows : (exe : Bytes) (args : List Bytes) → Follows (cli O exe args) (ran exe args ∷ [])
  cli-Follows exe args =
      Follows-of_Performs (cli O exe args) (ran exe args ∷ []) (cli-Performs exe args)

  write_script-Performs :
      Performs (write_script O o) (wrote o.init_file_path o.init_contents 0o755 ∷ [])
  unfolding write_script
  write_script-Performs w = ground arith

  remove-Performs : Performs (remove O o.init_file_path >>= check) (removed o.init_file_path ∷ [])
  remove-Performs w = ground arith

  enable-Follows : Follows (enable O o) (enable_event o ∷ [])
  unfolding enable
  enable-Follows = elim (Bool-cases o.is_red_hat) [
    | inl e ↦ rw e (cli-Follows _ _)
    | inr e ↦ rw e (cli-Follows _ _)
  ]

  disable-Follows : Follows (disable O o) (disable_event o ∷ [])
  unfolding disable
  disable-Follows = elim (Bool-cases o.is_red_hat) [
    | inl e ↦ rw e (cli-Follows _ _)
    | inr e ↦ rw e (cli-Follows _ _)
  ]

  by_start_type-Follows : Follows (by_start_type O o) (start_plan o)
  unfolding by_start_type
  by_start_type-Follows = elim (Bool-cases (bytes_eq o.start_type start_immediately)) [
    | inl e ↦ rw e (
        Follows-first (start O o) (enable O o) (service_event o (codes "start")) (cli-Performs _ _)
          enable-Follows)
    | inr n ↦ elim (Bool-cases (bytes_eq o.start_type start_on_load)) [
      | inl e ↦ rw (n, e) enable-Follows
      | inr d ↦ elim (Bool-cases (bytes_eq o.start_type manual_start)) [
        | inl e ↦ rw (n, d, e) disable-Follows
        | inr m ↦ rw (n, d, m) Follows-pure
      ]
    ]
  ]

  -- `Install` follows `install_plan` in its order, whatever the system answers, and leaves the rest of
  -- it out only if it returns an error: the script is written; then StartImmediately starts and
  -- enables the daemon, StartOnLoad enables it, and ManualStart disables it. For a start type that is
  -- none of the three, as one that is left unset, the plan ends with the script, so that no call
  -- disables the daemon, although ControllerConfig promises for an unset start type that the daemon
  -- has to be started manually, which takes the disabling call of ManualStart.
  pub systemv_install-Follows : Follows (install O o) (install_plan o)
  unfolding install
  systemv_install-Follows =
      Follows-first (write_script O o) (by_start_type O o)
        (wrote o.init_file_path o.init_contents 0o755) write_script-Performs by_start_type-Follows

  -- `Uninstall` stops the daemon and then removes the script, whether or not the stop succeeds:
  -- both calls are always made, and no other.
  pub systemv_uninstall-Performs : Performs (uninstall O o) (uninstall_plan o)
  unfolding uninstall stop
  systemv_uninstall-Performs w =
      remove-Performs (stop O o w).1
      ∙ ap (λ t. removed o.init_file_path ∷ t) (cli-Performs o.service_path _ w)

  -- For a start type that is none of the three constants, such as one that is left unset, `Install`
  -- writes the script and makes no other call: nothing disables the daemon.
  pub install-unset :
      bytes_eq o.start_type start_immediately ≡ false
      → bytes_eq o.start_type start_on_load ≡ false
      → bytes_eq o.start_type manual_start ≡ false
      → (w : World O)
      → (install O o w).1.journal ≡ wrote o.init_file_path o.init_contents 0o755 ∷ w.journal
  unfolding install by_start_type write_script
  install-unset n d m w = rw (n, d, m) (ground arith)
