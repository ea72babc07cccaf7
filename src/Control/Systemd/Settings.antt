-- ===== src/Control/Systemd/Settings.antt =====
-- How `newSystemdController` places a unit: for the system, or for the user who is logged in.
use cyberdaemon.Prelude.{
  Bool, true, false, List, ◌≡◌, ◌↔◌, Bytes, bytes_eq_refl, eq_of_bytes_eq, arith, ok, ◌⊎◌, Result,
  none, IsOk, ◌≢◌, [], ◌∷◌, ◌++◌, codes, refl,
}
use cyberdaemon.Os.{Os, World, User}
use cyberdaemon.Control.{ControllerConfig, is_empty, lookup_option}
use cyberdaemon.Control.Systemd.{
  SystemdController, UnitOption, unit_options, run_only_when_logged_in, default_unit_path,
  user_unit_path, settings_for_user, exec_start, run_settings, new_systemd_controller,
}

-- The options of a unit without the user.
abbrev pub unit_body : ControllerConfig → List UnitOption
unit_body config =
    record { section = codes "Unit"; name = codes "Description"; value = config.description }
    ∷ record { section = codes "Service"; name = codes "Type"; value = codes "simple" }
    ∷ record { section = codes "Service"; name = codes "ExecStart"; value = exec_start config }
    ∷ record { section = codes "Service"; name = codes "Restart"; value = codes "on-failure" }
    ∷ record {
      section = codes "Install";
      name = codes "WantedBy";
      value = codes "multi-user.target";
    }
    ∷ []

abbrev pub user_option : ControllerConfig → UnitOption
user_option config = record {
  section = codes "Service";
  name = codes "User";
  value = config.run_as;
}

abbrev pub Carried : ControllerConfig → Bytes → SystemdController → Type 0
Carried config path c =
    (c.systemctl_path ≡ path)
    × (c.daemon_id ≡ config.daemon_id)
    × (c.start_type ≡ config.start_type)

-- A unit of the system, driven without `--user`.
abbrev pub AtSystem : ControllerConfig → SystemdController → Type 0
AtSystem config c =
    (c.add_user_arg ≡ false)
    × (c.unit_file_path ≡ codes "/etc/systemd/system/" ++ config.daemon_id ++ codes ".service")

-- A unit in the home of a user, driven with `--user`.
abbrev pub AtHome : ControllerConfig → User → SystemdController → Type 0
AtHome config current c =
    (c.add_user_arg ≡ true)
    × (c.unit_file_path
        ≡ current.home_dir
          ++ codes "/.config/systemd/user/"
          ++ config.daemon_id
          ++ codes ".service")

-- The unit file holds these options, written out.
abbrev pub OfOptions :
    (List UnitOption → Result Bytes) → List UnitOption → SystemdController → Type 0
OfOptions serialize options c = serialize options ≡ ok c.unit_contents

-- The unit is for the system, for the current user, or for the user that it names.
abbrev pub Owned :
    (List UnitOption → Result Bytes) → ControllerConfig → User → SystemdController → Type 0
Owned serialize config current c =
    ((config.run_as ≡ []) × AtSystem config c × OfOptions serialize (unit_body config) c)
    ⊎ ((config.run_as ≢ [])
        × (config.run_as ≡ current.username)
        × (lookup_option run_only_when_logged_in config.system_specific_options ≢ none)
        × AtHome config current c
        × OfOptions serialize (unit_body config) c)
    ⊎ ((config.run_as ≢ [])
        × (lookup_option run_only_when_logged_in config.system_specific_options ≡ none)
        × AtSystem config c
        × OfOptions serialize (unit_body config ++ user_option config ∷ []) c)

module _ (O : Os) (serialize : List UnitOption → Result Bytes) (config : ControllerConfig) where
  run_settings_world : (w : World O) → (run_settings O config w).1 ≡ w
  unfolding run_settings
  run_settings_world w = ground arith

  -- Making a controller changes nothing in the system, and runs no command, on every branch.
  pub new_systemd_controller_world :
      (path : Bytes) (w : World O) → (new_systemd_controller O serialize config path w).1 ≡ w
  unfolding new_systemd_controller
  new_systemd_controller_world path w = ground (arith, run_settings_world w)

  is_empty-nil : (t : Bytes) → is_empty t ≡ true → t ≡ []
  unfolding is_empty
  is_empty-nil [] h = refl
  is_empty-nil (c ∷ t) h = cc

  ne_nil : (t : Bytes) → is_empty t ≡ false → t ≢ []
  unfolding is_empty
  ne_nil t h e = cc

  -- Where the current user is known, a controller that is made keeps the path of systemctl, the ID
  -- and the start type that it was given, and is one of three. Where no user is asked for, its unit
  -- is /etc/systemd/system/<ID>.service, it is driven without `--user`, and the unit names no `User`.
  -- Where the option is given, the user who is asked for is the current one, the unit is
  -- .config/systemd/user/<ID>.service in that user's home, it is driven with `--user` and names no
  -- `User`. Where a user is asked for without the option, it is again the system's unit, driven
  -- without `--user`, and the last of its options is a `User`, the one asked for. So none is made for
  -- the option with a user who is not the current one.
  pub new_systemd_controller-owner :
      (path : Bytes) (w : World O) (current : User) {c : SystemdController}
      → O.current_user w.state ≡ ok current
      → (new_systemd_controller O serialize config path w).0 ≡ ok c
      → Carried config path c × Owned serialize config current c
  unfolding new_systemd_controller run_settings settings_for_user user_unit_path default_unit_path
      unit_options
  new_systemd_controller-owner path w current h k = ground (
    arith,
    eq_of_bytes_eq config.run_as current.username,
    is_empty-nil config.run_as,
    ne_nil config.run_as,
  )

  -- Where the current user is known and units can be written out, a controller is made exactly if
  -- there is an executable path, and a user whose log-in is to be waited for is the current one.
  pub new_systemd_controller-ok_iff :
      (path : Bytes) (w : World O) (current : User) (contents : Bool → Bytes)
      → O.current_user w.state ≡ ok current
      → ((add_user : Bool) → serialize (unit_options config add_user) ≡ ok (contents add_user))
      → IsOk (new_systemd_controller O serialize config path w).0 ↔ (
          (is_empty config.exe_path ≡ false)
          × ((is_empty config.run_as ≡ true)
              ⊎ (lookup_option run_only_when_logged_in config.system_specific_options ≡ none)
              ⊎ (config.run_as ≡ current.username)))
  unfolding new_systemd_controller run_settings settings_for_user
  new_systemd_controller-ok_iff path w current contents h k = ground (
    arith,
    k true,
    k false,
    eq_of_bytes_eq config.run_as current.username,
    bytes_eq_refl config.run_as,
  )
