-- ===== src/Control/Systemd/Installing.antt =====
-- What `Install` and `Uninstall` of the systemd controller do to the system, in which order.
use cyberdaemon.Prelude.{
  List, [], ◌∷◌, Bytes, codes, bytes_eq, Bool-cases, inl, inr, if◌then◌else◌, arith,
}
use cyberdaemon.Os.{Os, Event, wrote, removed, ran, ◌>>◌}
use cyberdaemon.Os.Plans.{Performs, Follows, Follows-of_Performs, Follows-pure, Follows-first}
use cyberdaemon.Control.{start_immediately, start_on_load}
use cyberdaemon.Control.Systemd.{
  SystemdController, with_user_arg, systemctl, start, enable, reload, write_unit, by_start_type,
  install, daemon_reload_command,
}

-- One run of systemctl with the controller's `--user` flag.
abbrev pub command : SystemdController → List Bytes → Event
command o args = ran o.systemctl_path (with_user_arg o args)

-- What is to happen for each start type.
abbrev pub start_plan : SystemdController → List Event
start_plan o =
    if bytes_eq o.start_type start_immediately
    then command o (daemon_reload_command ∷ [])
      ∷ command o (codes "start" ∷ o.daemon_id ∷ [])
      ∷ command o (codes "enable" ∷ o.daemon_id ∷ [])
      ∷ []
    else if bytes_eq o.start_type start_on_load
    then command o (codes "enable" ∷ o.daemon_id ∷ []) ∷ []
    else []

abbrev pub install_plan : SystemdController → List Event
install_plan o = wrote o.unit_file_path o.unit_contents 0o644 ∷ start_plan o

abbrev pub uninstall_plan : SystemdController → List Event
uninstall_plan o =
    command o (codes "stop" ∷ o.daemon_id ∷ [])
    ∷ removed o.unit_file_path
    ∷ command o (daemon_reload_command ∷ [])
    ∷ []

module _ (O : Os) (o : SystemdController) where
  systemctl-Performs :
      (args : List Bytes) → Performs (systemctl O o args) (ran o.systemctl_path args ∷ [])
  unfolding systemctl
  systemctl-Performs args w = ground arith

  write_unit-Performs :
      Performs (write_unit O o) (wrote o.unit_file_path o.unit_contents 0o644 ∷ [])
  unfolding write_unit
  write_unit-Performs w = ground arith

  systemctl-Follows :
      (args : List Bytes) → Follows (systemctl O o args) (ran o.systemctl_path args ∷ [])
  systemctl-Follows args =
      Follows-of_Performs (systemctl O o args) (ran o.systemctl_path args ∷ [])
        (systemctl-Performs args)

  enable-Follows : Follows (enable O o) (command o (codes "enable" ∷ o.daemon_id ∷ []) ∷ [])
  unfolding enable
  enable-Follows = systemctl-Follows (with_user_arg o (codes "enable" ∷ o.daemon_id ∷ []))

  by_start_type-Follows : Follows (by_start_type O o) (start_plan o)
  unfolding by_start_type
  by_start_type-Follows = elim (Bool-cases (bytes_eq o.start_type start_immediately)) [
    | inl e ↦ rw e (
        Follows-first (reload O o) (start O o >> enable O o)
          (command o (daemon_reload_command ∷ [])) (systemctl-Performs _)
          (Follows-first (start O o) (enable O o) (command o (codes "start" ∷ o.daemon_id ∷ []))
            (systemctl-Performs _) enable-Follows))
    | inr n ↦ elim (Bool-cases (bytes_eq o.start_type start_on_load)) [
      | inl e ↦ rw (n, e) enable-Follows
      | inr d ↦ rw (n, d) Follows-pure
    ]
  ]

  -- `Install` writes the unit file and then makes the calls that its start type asks for, in the
  -- order of `install_plan`, whatever the system answers. It leaves the rest of the plan out only
  -- if it returns an error.
  pub systemd_install-Follows : Follows (install O o) (install_plan o)
  unfolding install
  systemd_install-Follows =
      Follows-first (write_unit O o) (by_start_type O o)
        (wrote o.unit_file_path o.unit_contents 0o644) write_unit-Performs by_start_type-Follows
