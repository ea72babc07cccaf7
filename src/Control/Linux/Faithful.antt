-- ===== src/Control/Linux/Faithful.antt =====
-- Every controller that `NewController` makes on Linux keeps the contract of Control/Contract.antt.
use cyberdaemon.Prelude.{
  Bool, List, ◌≡◌, refl, ◌++◌, Option, none, some, Bytes, codes, bytes_eq, Result, ok, if-cases,
  if◌then◌else◌, lift, pure, map_err, try, ◌>>=◌,
}
use cyberdaemon.Prelude.Ensures.{WhenOk, WhenOk-ok, Ensures, Ensures-bind, Ensures-after}
use cyberdaemon.Os.{Os, World, User, Action, is_file, current_user}
use cyberdaemon.Os.Laws.{IsLawful, Spares}
use cyberdaemon.Osutil.{SystemvTools, is_systemd, is_systemv, chkconfig_path, updatercd_path}
use cyberdaemon.Control.{
  ControllerConfig, Controller, OptionValue, validate, is_empty, lookup_option,
}
use cyberdaemon.Control.Contract.{IsFaithful}
use cyberdaemon.Control.Systemd
use cyberdaemon.Control.Systemd.{
  SystemdController, UnitOption, RunSettings, unit_options, run_only_when_logged_in,
  default_unit_path, user_unit_path, settings_for_user, run_settings, new_systemd_controller,
}
use cyberdaemon.Control.Systemd.Faithful.{systemd-IsFaithful}
use cyberdaemon.Control.Systemv
use cyberdaemon.Control.Systemv.{
  SystemvController, new_systemv_controller, check_script, init_script,
}
use cyberdaemon.Control.Systemv.Faithful.{systemv-IsFaithful}
use cyberdaemon.Control.Linux.{systemd_controller, systemv_controller, new_controller}

-- The files that stand for an installed daemon.
pub data IsDaemonFile (config : ControllerConfig) : Bytes → Type 0 where
  system_unit : IsDaemonFile config (default_unit_path config)
  user_unit : (user : User) → IsDaemonFile config (user_unit_path config user)
  script : IsDaemonFile config (codes "/etc/init.d/" ++ config.daemon_id)

module _ (O : Os) (config : ControllerConfig) where
  abbrev HasPath : RunSettings → Type 0
  HasPath r = IsDaemonFile config r.unit_file_path

  by_option :
      (user : User) (given : Option OptionValue)
      → lookup_option run_only_when_logged_in config.system_specific_options ≡ given
      → WhenOk HasPath (settings_for_user config user)
  unfolding settings_for_user
  by_option user none h = rw (h, WhenOk) system_unit
  by_option user (some v) h =
      rw (h, WhenOk)
        (if-cases (WhenOk HasPath) (bytes_eq config.run_as user.username) (λ _. user_unit user)
          (λ _. tt))

  run_settings-HasPath : Ensures (run_settings O config) HasPath
  unfolding run_settings
  run_settings-HasPath =
      if-cases (λ (m : Action O RunSettings). Ensures m HasPath) (is_empty config.run_as)
        (λ _ w. system_unit)
        (λ _.
          Ensures-after HasPath (try (current_user O))
            (λ found.
              lift (map_err (λ e. codes "failed to get current user - " ++ e) found) >>= λ user.
              lift (settings_for_user config user))
            (λ found.
              Ensures-after HasPath
                (lift (map_err (λ e. codes "failed to get current user - " ++ e) found))
                (λ user. lift (settings_for_user config user)) (λ user w. by_option user _ refl)))

  module _ (serialize : List UnitOption → Result Bytes) where
    abbrev HasUnitPath : SystemdController → Type 0
    HasUnitPath o = IsDaemonFile config o.unit_file_path

    new_systemd_controller-HasUnitPath :
        (path : Bytes) → Ensures (new_systemd_controller O serialize config path) HasUnitPath
    unfolding new_systemd_controller
    new_systemd_controller-HasUnitPath path =
        Ensures-after HasUnitPath (lift (validate config)) _ (λ _.
          Ensures-bind HasPath HasUnitPath (run_settings O config) _ run_settings-HasPath
            (λ settings h.
              Ensures-after HasUnitPath
                (lift (
                  map_err (λ e. codes "failed to read from unit reader - " ++ e)
                    (serialize (unit_options config settings.add_user_to_unit))))
                _ (λ contents w. h)))

  abbrev HasScriptPath : SystemvController → Type 0
  HasScriptPath o = IsDaemonFile config o.init_file_path

  new_systemv_controller-HasScriptPath :
      (path : Bytes) (is_red_hat : Bool)
      → Ensures (new_systemv_controller O config path is_red_hat) HasScriptPath
  unfolding new_systemv_controller
  new_systemv_controller-HasScriptPath path is_red_hat =
      Ensures-after HasScriptPath (lift (validate config)) _ (λ _.
        Ensures-after HasScriptPath (lift (check_script (init_script config))) _ (λ contents.
          Ensures-after HasScriptPath (if is_red_hat then chkconfig_path O else updatercd_path O) _
            (λ tool w. script)))

module _ (O : Os) (config : ControllerConfig) (lawful : IsLawful O)
    (spares : (exe p : Bytes) → IsDaemonFile config p → Spares O exe p)
    (serialize : List UnitOption → Result Bytes) where
  -- A controller for which the daemon is installed where one of its files is.
  abbrev FileFaithful : Controller (World O) → Type 0
  FileFaithful c =
      (p : Bytes) × (IsDaemonFile config p × IsFaithful c (λ w. is_file (O.stat w.state p)))

  systemd-FileFaithful :
      (path : Bytes) → Ensures (systemd_controller O serialize config path) FileFaithful
  unfolding systemd_controller
  systemd-FileFaithful path =
      Ensures-bind (HasUnitPath O config serialize) FileFaithful
        (new_systemd_controller O serialize config path) (λ o. pure (Systemd.controller O o))
        (new_systemd_controller-HasUnitPath O config serialize path)
        (λ o h w. (o.unit_file_path, (h, systemd-IsFaithful O o lawful (spares _ _ h))))

  made-FileFaithful :
      (tools : SystemvTools)
      → Ensures
          (new_systemv_controller O config tools.service_path tools.is_red_hat >>= λ o.
            pure (Systemv.controller O o))
          FileFaithful
  made-FileFaithful tools =
      Ensures-bind (HasScriptPath O config) FileFaithful
        (new_systemv_controller O config tools.service_path tools.is_red_hat)
        (λ o. pure (Systemv.controller O o))
        (new_systemv_controller-HasScriptPath O config tools.service_path tools.is_red_hat)
        (λ o h w. (
          o.init_file_path,
          (h, systemv-IsFaithful O o lawful (spares _ _ h) (spares _ _ h) (spares _ _ h)),
        ))

  systemv-FileFaithful :
      (tools : SystemvTools) → Ensures (systemv_controller O serialize config tools) FileFaithful
  unfolding systemv_controller
  systemv-FileFaithful tools =
      if-cases (λ (m : Action O (Controller (World O))). Ensures m FileFaithful) tools.found
        (λ _. made-FileFaithful tools) (λ _ w. tt)

  by_answer-FileFaithful :
      (answer : Bytes × Bool)
      → Ensures
          (if answer.1
            then systemd_controller O serialize config answer.0
            else is_systemv O >>= systemv_controller O serialize config)
          FileFaithful
  by_answer-FileFaithful (path, found) =
      if-cases (λ (m : Action O (Controller (World O))). Ensures m FileFaithful) found
        (λ _. systemd-FileFaithful path)
        (λ _.
          Ensures-after FileFaithful (is_systemv O) (systemv_controller O serialize config)
            systemv-FileFaithful)

  -- Whichever controller `NewController` returns on Linux, it keeps the contract of a controller,
  -- the daemon being installed exactly where one file is: a unit of the system, a unit of a user, or
  -- an init.d script, under the configured ID. The system is to keep the laws, and its executables
  -- are to leave these files where they are.
  pub new_controller-IsFaithful :
      (w : World O) (c : Controller (World O))
      → (new_controller O serialize config w).0 ≡ ok c
      → (p : Bytes) × (IsDaemonFile config p × IsFaithful c (λ v. is_file (O.stat v.state p)))
  unfolding new_controller
  new_controller-IsFaithful w c h =
      WhenOk-ok FileFaithful (new_controller O serialize config w).0 c
        (Ensures-after FileFaithful (is_systemd O) _ by_answer-FileFaithful w) h
