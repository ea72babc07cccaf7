-- ===== src/Control/Windows/Installing.antt =====
-- What `Install` of the Windows controller does to the machine, also where it fails half-way.
use cyberdaemon.Prelude.{
  true, false, List, [], ◌∷◌, ◌++◌, ◌≡◌, refl, Option, none, some, Bool-cases, inl, inr, Bytes,
  Result, ok, err, bytes_eq, if-cases, if◌then◌else◌, continue, ◌>>=◌, ◌>>◌, lift, ap, subst,
}
use cyberdaemon.ServiceManager.{
  Machine, World, Task, ServiceConfig, add_manager, Call, create_service, created, started, deleted,
  source_installed, finally, with_held, drop_service, drop_manager, called, install_source,
  service_result, connect_result,
}
use cyberdaemon.Control.{
  ControllerConfig, OptionValue, get_password, other_value, start_immediately, is_empty,
  lookup_option,
}
use cyberdaemon.Control.Windows.{
  WindowsController, password_option, install_password, password_of_option, password_of_value,
  service_config, check_or_delete, start_created, finish_install, install,
}

-- What a service is registered with, besides its name, executable and arguments.
abbrev pub account_config : WindowsController → Bytes → ServiceConfig
account_config o p = record {
  display_name = o.config.daemon_id;
  description = o.config.description;
  start_type = o.win_start_type;
  service_start_name = o.config.run_as;
  password = p;
}

-- A service of the system's own account has no password, one of another account the password that
-- the caller's `GetPassword` returns.
pub data PasswordFor (config : ControllerConfig) : Bytes → Type 0 where
  no_account : is_empty config.run_as ≡ true → PasswordFor config []
  of_account :
      {p : Bytes}
      → is_empty config.run_as ≡ false
      → lookup_option password_option config.system_specific_options ≡ some (get_password (ok p))
      → PasswordFor config p

abbrev pub start_calls : (M : Machine) → WindowsController → M.Service → List (Call M.Service)
start_calls M o s = if bytes_eq o.config.start_type start_immediately then started s ∷ [] else []

-- How `Install` ends after the service was created, with the journal `before`.
pub data Finishes (M : Machine) (o : WindowsController) (s : M.Service)
    (before : List (Call M.Service)) : Result (Unit {0}) → List (Call M.Service) → Type 0 where
  start_failed :
      (e : Bytes)
      → bytes_eq o.config.start_type start_immediately ≡ true
      → Finishes M o s before (err e) (deleted s ∷ started s ∷ before)
  source_failed :
      (e : Bytes)
      → Finishes M o s before
          (err e)
          (deleted s ∷ source_installed o.config.daemon_id ∷ start_calls M o s ++ before)
  finished :
      Finishes M o s before
        (ok tt)
        (source_installed o.config.daemon_id ∷ start_calls M o s ++ before)

-- How `Install` ends, in a world `w`.
pub data Installs (M : Machine) (o : WindowsController) (w : World M)
    : Result (Unit {0}) → List (Call M.Service) → Type 0 where
  not_tried : (e : Bytes) → Installs M o w (err e) w.journal
  not_created :
      (e p : Bytes)
      → PasswordFor o.config p
      → (M.create_service w.state o.config.daemon_id o.config.exe_path
          (account_config o p)
          o.config.arguments).1
        ≡ err e
      → Installs M o w (err e) (
          created o.config.daemon_id o.config.exe_path (account_config o p) o.config.arguments
          ∷ w.journal)
  service_created :
      (p : Bytes) (s : M.Service) {result : Result (Unit {0})} {journal : List (Call M.Service)}
      → PasswordFor o.config p
      → (M.create_service w.state o.config.daemon_id o.config.exe_path
          (account_config o p)
          o.config.arguments).1
        ≡ ok s
      → Finishes M o s
          (created o.config.daemon_id o.config.exe_path (account_config o p) o.config.arguments
            ∷ w.journal)
          result
          journal
      → Installs M o w result journal

module _ (M : Machine) (o : WindowsController) where
  source-Finishes :
      (s : M.Service) (before : List (Call M.Service)) (failure : Option Bytes) (w : World M)
      → w.journal ≡ source_installed o.config.daemon_id ∷ start_calls M o s ++ before
      → Finishes M o s before
          (check_or_delete M s failure w).0
          (check_or_delete M s failure w).1.journal
  unfolding check_or_delete
  source-Finishes s before none w h = rw h finished
  source-Finishes s before (some e) w h = rw h (source_failed e)

  -- The part of `Install` behind the start, after which the journal is as `w` has it.
  abbrev then_source : M.Service → Task M (Unit {0}) → Task M (Unit {0})
  then_source s started_service =
      started_service
      >> (install_source M o.config.daemon_id >>= λ failure. check_or_delete M s failure)

  abbrev FinishesAt : M.Service → World M → Result (Unit {0}) × World M → Type 0
  FinishesAt s w end = Finishes M o s w.journal end.0 end.1.journal

  start_result-Finishes :
      (s : M.Service) (failure : Option Bytes) (t : M.State) (w : World M)
      → bytes_eq o.config.start_type start_immediately ≡ true
      → FinishesAt s w (then_source s (check_or_delete M s failure) (called (started s) t w))
  unfolding check_or_delete source-Finishes
  start_result-Finishes s none t w at_once =
      source-Finishes s w.journal (M.install_source t o.config.daemon_id).1 _ (rw at_once refl)
  start_result-Finishes s (some e) t w at_once = start_failed e at_once

  finish_install-Finishes : (s : M.Service) (w : World M) → FinishesAt s w (finish_install M o s w)
  unfolding finish_install start_created
  finish_install-Finishes s w =
      if-cases (λ (m : Task M (Unit {0})). FinishesAt s w (then_source s m w))
        (bytes_eq o.config.start_type start_immediately)
        (λ at_once. start_result-Finishes s (M.start w.state s).1 (M.start w.state s).0 w at_once)
        (λ not_at_once.
          source-Finishes s w.journal (M.install_source w.state o.config.daemon_id).1 _
            (rw not_at_once refl))

  abbrev InstallsAt : World M → Result (Unit {0}) × World M → Type 0
  InstallsAt w end = Installs M o w end.0 end.1.journal

  abbrev create : Bytes → Task M M.Service
  create p =
      create_service M o.config.daemon_id o.config.exe_path (account_config o p) o.config.arguments

  create_call : Bytes → Call M.Service
  create_call p =
      created o.config.daemon_id o.config.exe_path (account_config o p) o.config.arguments

  -- The rest of `Install`, in the world in which the service manager is connected.
  created-Installs :
      (p : Bytes) (r : Result M.Service) (t : M.State) (w : World M)
      → PasswordFor o.config p
      → (M.create_service w.state o.config.daemon_id o.config.exe_path
          (account_config o p)
          o.config.arguments).1
        ≡ r
      → InstallsAt w (
          (service_result M r >>= λ s. finally (with_held drop_service) (finish_install M o s))
            (called (create_call p) t (with_held add_manager w)))
  unfolding service_result create_call
  created-Installs p (ok s) t w given made =
      service_created p s given made (finish_install-Finishes s _)
  created-Installs p (err e) t w given refused = not_created e p given refused

  password-Installs :
      (r : Result Bytes) (w : World M)
      → ((p : Bytes) → r ≡ ok p → PasswordFor o.config p)
      → InstallsAt w (
          continue r
            (λ password.
              create password >>= λ s. finally (with_held drop_service) (finish_install M o s))
            (with_held add_manager w))
  unfolding create_call service_result
  password-Installs (ok p) w given = created-Installs p _ _ w (given p refl) refl
  password-Installs (err e) w given = not_tried e

  value-PasswordFor :
      (v : OptionValue) (p : Bytes)
      → is_empty o.config.run_as ≡ false
      → lookup_option password_option o.config.system_specific_options ≡ some v
      → password_of_value v ≡ ok p
      → PasswordFor o.config p
  unfolding password_of_value
  value-PasswordFor (get_password (ok q)) p run_as given h =
      let e : q ≡ p = cc in of_account run_as (rw given (ap (λ t. some (get_password (ok t))) e))
  value-PasswordFor (get_password (err e)) p run_as given h = cc
  value-PasswordFor other_value p run_as given h = cc

  option-PasswordFor :
      (v : Option OptionValue) (p : Bytes)
      → is_empty o.config.run_as ≡ false
      → lookup_option password_option o.config.system_specific_options ≡ v
      → password_of_option v ≡ ok p
      → PasswordFor o.config p
  unfolding password_of_option
  option-PasswordFor (some v) p run_as given h = value-PasswordFor v p run_as given h
  option-PasswordFor none p run_as given h = cc

  install_password-PasswordFor :
      (p : Bytes) → install_password o.config ≡ ok p → PasswordFor o.config p
  unfolding install_password
  install_password-PasswordFor p = elim (Bool-cases (is_empty o.config.run_as)) [
    | inl e ↦ rw e (λ h. let q : [] ≡ p = cc in subst (PasswordFor o.config) q (no_account e))
    | inr e ↦ rw e (option-PasswordFor _ p e refl)
  ]

  connect_result-Installs :
      (failure : Option Bytes) (w : World M)
      → InstallsAt w (
          (connect_result M failure
              >> finally (with_held drop_manager) (
                  lift (install_password o.config) >>= λ password.
                  create password >>= λ s. finally (with_held drop_service) (finish_install M o s)))
            w)
  unfolding connect_result
  connect_result-Installs none w =
      password-Installs (install_password o.config) w install_password-PasswordFor
  connect_result-Installs (some e) w = not_tried e

  -- However `Install` ends, a service is created only under the password that fits the account.
  -- Once it is created, a failure is followed by its deletion, and nothing is attempted after that;
  -- a success has started the service, if that was asked for, and installed the event source, and
  -- deleted nothing.
  pub windows_install-Installs : (w : World M) → InstallsAt w (install M o w)
  unfolding service_config install connect_result
  windows_install-Installs w = connect_result-Installs (M.connect w.state) w
