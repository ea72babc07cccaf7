-- ===== src/ServiceManager/Releasing.antt =====
-- Tasks that give back the handles that they take: connections, services and tickers.
use cyberdaemon.Prelude.{
  ◌≡◌, refl, ◌∙◌, ap, Option, none, some, Bytes, Result, ok, err, continue, ◌>>=◌, ◌>>◌, try, check,
  List,
}
use cyberdaemon.ServiceManager.{
  ServiceConfig, Machine, World, Task, Handles, finally, with_held, drop_manager, drop_service,
  drop_ticker, add_ticker, connect, connect_result, open_service, create_service, service_result,
  open_key, key_result,
}

abbrev pub without_keys : Handles → Handles
without_keys h = record {
  managers = h.managers;
  services = h.services;
  keys = 0;
  tickers = h.tickers;
}

-- As many connections, services and tickers, whatever the registry keys.
abbrev pub SameHandles : Handles → Handles → Type 0
SameHandles h k = without_keys h ≡ without_keys k

abbrev pub Restores : (M : Machine) {A : Type 0} → Task M A → Type 0
Restores M m = (w : World M) → SameHandles (m w).1.held w.held

module _ {M : Machine} where
  pub Restores-bind :
      {A B : Type 0} (m : Task M A) (f : A → Task M B)
      → Restores M m
      → ((a : A) → Restores M (f a))
      → Restores M (m >>= f)
  Restores-bind {A} {B} m f hm hf w = go (m w).0 (m w).1 (hm w)
    where
      go :
          (r : Result A) (w' : World M)
          → SameHandles w'.held w.held
          → SameHandles (continue r f w').1.held w.held
      go (ok a) w' h = hf a w' ∙ h
      go (err e) w' h = h

  pub Restores-continue :
      {A B : Type 0} (r : Result A) (f : A → Task M B)
      → ((a : A) → Restores M (f a))
      → Restores M (continue r f)
  Restores-continue (ok a) f h w = h a w
  Restores-continue (err e) f h w = refl

  pub Restores-check : (failure : Option Bytes) → Restores M (check failure)
  Restores-check none w = refl
  Restores-check (some e) w = refl

  connect_result-Restores :
      {A : Type 0} (failure : Option Bytes) (body : Task M A)
      → Restores M body
      → Restores M (connect_result M failure >> finally (with_held drop_manager) body)
  unfolding connect_result
  connect_result-Restores none body h w = ap drop_manager (h _)
  connect_result-Restores (some e) body h w = refl

  service_result-Restores :
      {A : Type 0} (r : Result M.Service) (body : M.Service → Task M A)
      → ((s : M.Service) → Restores M (body s))
      → Restores M (service_result M r >>= λ s. finally (with_held drop_service) (body s))
  unfolding service_result
  service_result-Restores (ok s) body h w = ap drop_service (h s _)
  service_result-Restores (err e) body h w = refl

  -- A connection, a service or a ticker that is given back when the rest of the function ends.
  pub connect-Restores :
      {A : Type 0} (body : Task M A)
      → Restores M body
      → Restores M (connect M >> finally (with_held drop_manager) body)
  unfolding connect
  connect-Restores body h w = connect_result-Restores (M.connect w.state) body h w

  pub open_service-Restores :
      {A : Type 0} (name : Bytes) (body : M.Service → Task M A)
      → ((s : M.Service) → Restores M (body s))
      → Restores M (open_service M name >>= λ s. finally (with_held drop_service) (body s))
  unfolding open_service
  open_service-Restores name body h w =
      service_result-Restores (M.open_service w.state name) body h w

  pub create_service-Restores :
      {A : Type 0} (name exe_path : Bytes) (config : ServiceConfig) (args : List Bytes)
      (body : M.Service → Task M A)
      → ((s : M.Service) → Restores M (body s))
      → Restores M (
          create_service M name exe_path config args >>= λ s.
          finally (with_held drop_service) (body s))
  unfolding create_service
  create_service-Restores name exe_path config args body h w =
      service_result-Restores (M.create_service w.state name exe_path config args).1 body h _

  pub ticker-Restores :
      {A : Type 0} (body : Task M A)
      → Restores M body
      → Restores M (finally (with_held drop_ticker) (λ w. body (with_held add_ticker w)))
  ticker-Restores body h w = ap drop_ticker (h _)

  key_result-Restores : (failure : Option Bytes) → Restores M (key_result M failure)
  unfolding key_result
  key_result-Restores none w = refl
  key_result-Restores (some e) w = refl

  pub open_key-Restores : (path : Bytes) → Restores M (open_key M path)
  unfolding open_key
  open_key-Restores path w = key_result-Restores (M.open_key w.state path) w

  try_result-Restores :
      {A : Type 0} (r : Result M.Service) (on : Result M.Service → Task M A)
      → ((e : Bytes) → Restores M (on (err e)))
      → ((s : M.Service) (w : World M) → SameHandles (on (ok s) w).1.held (drop_service w.held))
      → Restores M (try (service_result M r) >>= on)
  unfolding service_result
  try_result-Restores (ok s) on failed opened w = opened s _
  try_result-Restores (err e) on failed opened w = failed e w

  -- A service that is opened, with a look at the error, and given back where it was opened.
  pub try_open-Restores :
      {A : Type 0} (name : Bytes) (on : Result M.Service → Task M A)
      → ((e : Bytes) → Restores M (on (err e)))
      → ((s : M.Service) (w : World M) → SameHandles (on (ok s) w).1.held (drop_service w.held))
      → Restores M (try (open_service M name) >>= on)
  unfolding open_service
  try_open-Restores name on failed opened w =
      try_result-Restores (M.open_service w.state name) on failed opened w
