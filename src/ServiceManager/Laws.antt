-- ===== src/ServiceManager/Laws.antt =====
-- What the program relies on of the service manager, where `known` says whether a service of a name
-- is registered, and `name_of` gives the name of a service.
use cyberdaemon.Prelude.{Bool, true, false, List, ◌≡◌, none, Bytes, ok, err}
use cyberdaemon.Prelude.Int.{ℤ}
use cyberdaemon.ServiceManager.{ServiceConfig, svc_stopped, Wakes, ticked, timed_out, Machine}

-- A property of every state in which the machine is at a wake.
abbrev pub AtWakes : {S : Type 0} → (S → Type 0) → Wakes S → Type 0
AtWakes P (timed_out t) = P t
AtWakes P (ticked t later) = P t × AtWakes P later

pub record IsLawful (M : Machine) (not_installed_err : Bytes) (known : M.State → Bytes → Bool)
    (name_of : M.Service → Bytes) : Type 0 where
  -- A service that can be opened is registered, and one that is reported missing is not.
  pub open-known :
      (s : M.State) (name : Bytes) (h : M.Service)
      → M.open_service s name ≡ ok h
      → known s name ≡ true
  pub open-missing :
      (s : M.State) (name : Bytes)
      → M.open_service s name ≡ err not_installed_err
      → known s name ≡ false
  pub open-name :
      (s : M.State) (name : Bytes) (h : M.Service) → M.open_service s name ≡ ok h → name_of h ≡ name
  -- A service that was created is registered.
  pub create-known :
      (s : M.State) (name exe_path : Bytes) (config : ServiceConfig) (args : List Bytes)
      (h : M.Service)
      → (M.create_service s name exe_path config args).1 ≡ ok h
      → known (M.create_service s name exe_path config args).0 name ≡ true
  -- No other call registers a service or removes one, but for the deletion of one that is stopped,
  -- which removes it.
  pub start-known :
      (s : M.State) (h : M.Service) (name : Bytes) → known (M.start s h).0 name ≡ known s name
  pub control_stop-known :
      (s : M.State) (h : M.Service) (name : Bytes)
      → known (M.control_stop s h).0 name ≡ known s name
  pub install_source-known :
      (s : M.State) (src name : Bytes) → known (M.install_source s src).0 name ≡ known s name
  pub remove_source-known :
      (s : M.State) (src name : Bytes) → known (M.remove_source s src).0 name ≡ known s name
  pub wakes-known :
      (s : M.State) (period timer : ℤ) (name : Bytes)
      → AtWakes (λ t. known t name ≡ known s name) (M.wakes s period timer)
  pub delete-stopped :
      (s : M.State) (h : M.Service)
      → M.query s h ≡ ok svc_stopped
      → (M.delete s h).1 ≡ none
      → known (M.delete s h).0 (name_of h) ≡ false
  -- A service whose answer to the stop request is that it is stopped is stopped.
  pub control_stop-stopped :
      (s : M.State) (h : M.Service)
      → (M.control_stop s h).1 ≡ ok svc_stopped
      → M.query (M.control_stop s h).0 h ≡ ok svc_stopped
