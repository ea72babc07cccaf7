-- ===== src/Control/Windows/Registering.antt =====
-- What the operations of the Windows controller do to the registration of its service.
use cyberdaemon.Prelude.{
  true, false, Bool, ◌≡◌, refl, sym, ◌∙◌, ap, subst, Option, none, some, Bytes, bytes_eq, Result,
  ok, err, if-cases, continue, check, lift, ◌>>=◌, ◌>>◌,
}
use cyberdaemon.Prelude.Keeps.{then-ok}
use cyberdaemon.ServiceManager.{
  svc_stopped, Machine, World, Task, finally, with_held, drop_manager, drop_service, connect_result,
  open_service, service_result, create_service, called, deleted, install_source, remove_source,
}
use cyberdaemon.ServiceManager.Laws.{IsLawful}
use cyberdaemon.Control.{start_immediately}
use cyberdaemon.Control.ServiceStop.{stop_and_wait}
use cyberdaemon.Control.ServiceStop.Stopped.{stop_and_wait-Ends}
use cyberdaemon.Control.Windows.{
  WindowsController, not_installed_err, install_password, service_config, check_or_delete,
  start_created, finish_install, install, remove_service, uninstall, start_service, start, stop,
}

abbrev pub is_registered :
    (M : Machine) (known : M.State → Bytes → Bool) → WindowsController → World M → Bool
is_registered M known o w = known w.state o.config.daemon_id

-- Both ways in which a request may end.
stopped_after :
    (P : Type 0) (r : Result (Unit {0})) → (r ≡ ok tt → P) → ((e : Bytes) → r ≡ err e → P) → P
stopped_after P (ok u) accepted refused = accepted refl
stopped_after P (err e) accepted refused = refused e refl

module _ (M : Machine) (known : M.State → Bytes → Bool) (name_of : M.Service → Bytes)
    (lawful : IsLawful M not_installed_err known name_of)
    (stops : (w : World M) (s : M.Service) (e : Bytes)
      → (stop_and_wait M s w).0 ≡ err e
      → M.query (stop_and_wait M s w).1.state s ≡ ok svc_stopped)
    (o : WindowsController) where
  abbrev registered : World M → Bool
  registered = is_registered M known o

  check_or_delete_ok :
      (s : M.Service) (failure : Option Bytes) (w : World M)
      → (check_or_delete M s failure w).0 ≡ ok tt
      → registered (check_or_delete M s failure w).1 ≡ registered w
  unfolding check_or_delete
  check_or_delete_ok s none w h = refl
  check_or_delete_ok s (some e) w h = cc

  start_created_ok :
      (s : M.Service) (w : World M)
      → (start_created M o s w).0 ≡ ok tt
      → registered (start_created M o s w).1 ≡ registered w
  unfolding start_created
  start_created_ok s w =
      if-cases (λ (m : Task M (Unit {0})). (m w).0 ≡ ok tt → registered (m w).1 ≡ registered w)
        (bytes_eq o.config.start_type start_immediately)
        (λ _ h. check_or_delete_ok s _ _ h ∙ lawful.start-known w.state s _) (λ _ h. refl)

  source_part : M.Service → Task M (Unit {0})
  source_part s = install_source M o.config.daemon_id >>= λ failure. check_or_delete M s failure

  source_part_ok :
      (s : M.Service) (w : World M)
      → (source_part s w).0 ≡ ok tt
      → registered (source_part s w).1 ≡ registered w
  unfolding source_part
  source_part_ok s w h = check_or_delete_ok s _ _ h ∙ lawful.install_source-known w.state _ _

  finish_install_ok :
      (s : M.Service) (w : World M)
      → (finish_install M o s w).0 ≡ ok tt
      → registered (finish_install M o s w).1 ≡ registered w
  unfolding finish_install source_part
  finish_install_ok s w h =
      let (started, rest) = then-ok (start_created M o s) (source_part s) w h in
      let at_source : World M = (start_created M o s w).1 in
      ap (λ (end : Result (Unit {0}) × World M). registered end.1) rest
      ∙ (source_part_ok s at_source
            (sym (ap (λ (end : Result (Unit {0}) × World M). end.0) rest) ∙ h)
          ∙ start_created_ok s w started)

  created_ok :
      (r : Result M.Service) (w : World M)
      → ((h : M.Service) → r ≡ ok h → registered w ≡ true)
      → let end =
          (service_result M r >>= λ s. finally (with_held drop_service) (finish_install M o s)) w in
        end.0 ≡ ok tt → registered end.1 ≡ true
  unfolding service_result
  created_ok (ok s) w known_now h = finish_install_ok s _ h ∙ known_now s refl
  created_ok (err e) w known_now h = cc

  abbrev install_rest : Task M (Unit {0})
  install_rest = lift (install_password o.config) >>= λ password.
      create_service M o.config.daemon_id o.config.exe_path (service_config o password)
        o.config.arguments
      >>= λ s. finally (with_held drop_service) (finish_install M o s)

  password_ok :
      (r : Result Bytes) (w : World M)
      → let end =
          continue r
            (λ password.
              create_service M o.config.daemon_id o.config.exe_path
                (service_config o password)
                o.config.arguments
              >>= λ s. finally (with_held drop_service) (finish_install M o s))
            w in
        end.0 ≡ ok tt → registered end.1 ≡ true
  unfolding service_result
  password_ok (ok password) w =
      created_ok _ _ (λ h made. lawful.create-known w.state _ _ _ _ h made)
  password_ok (err e) w = λ h. cc

  connected_ok :
      (failure : Option Bytes) (body : Task M (Unit {0})) (b : Bool) (w : World M)
      → ((v : World M) → v.state ≡ w.state → (body v).0 ≡ ok tt → registered (body v).1 ≡ b)
      → let end = (connect_result M failure >> finally (with_held drop_manager) body) w in
        end.0 ≡ ok tt → registered end.1 ≡ b
  unfolding connect_result
  connected_ok none body b w h = h _ refl
  connected_ok (some e) body b w h = λ k. cc

  pub install-registered :
      (w : World M) → (install M o w).0 ≡ ok tt → registered (install M o w).1 ≡ true
  unfolding install connect_result
  install-registered w =
      connected_ok (M.connect w.state) install_rest true w
        (λ v same. password_ok (install_password o.config) v)

  -- The look at an error changes nothing.
  registered-check :
      (failure : Option Bytes) (w : World M) → registered (check failure w).1 ≡ registered w
  registered-check none w = refl
  registered-check (some e) w = refl

  deleted_ok :
      (failure : Option Bytes) (w : World M)
      → (failure ≡ none → registered w ≡ false)
      → let end =
          (check failure
              >> (remove_source M o.config.daemon_id >>= λ source_failure. check source_failure))
            w in
        end.0 ≡ ok tt → registered end.1 ≡ false
  deleted_ok none w gone h =
      registered-check _ _ ∙ (lawful.remove_source-known w.state _ _ ∙ gone refl)
  deleted_ok (some e) w gone h = cc

  remove_service_ok :
      (s : M.Service) (w : World M)
      → name_of s ≡ o.config.daemon_id
      → (remove_service M o s w).0 ≡ ok tt
      → registered (remove_service M o s w).1 ≡ false
  unfolding remove_service
  remove_service_ok s w named =
      let stopped : World M = (stop_and_wait M s w).1 in
      let (asked, _) =
        stop_and_wait-Ends M s not_installed_err known name_of lawful o.config.daemon_id w in
      deleted_ok (M.delete stopped.state s).1
        (called (deleted s) (M.delete stopped.state s).0 stopped)
        (λ accepted.
          subst (λ n. known (M.delete stopped.state s).0 n ≡ false) named
            (lawful.delete-stopped stopped.state s
              (stopped_after (M.query stopped.state s ≡ ok svc_stopped) (stop_and_wait M s w).0
                asked (stops w s))
              accepted))

  opened_ok :
      (r : Result M.Service) (w : World M)
      → ((s : M.Service) → r ≡ ok s → name_of s ≡ o.config.daemon_id)
      → let end =
          (service_result M r >>= λ s. finally (with_held drop_service) (remove_service M o s)) w in
        end.0 ≡ ok tt → registered end.1 ≡ false
  unfolding service_result
  opened_ok (ok s) w named = remove_service_ok s _ (named s refl)
  opened_ok (err e) w named = λ h. cc

  pub uninstall-registered :
      (w : World M) → (uninstall M o w).0 ≡ ok tt → registered (uninstall M o w).1 ≡ false
  unfolding uninstall connect_result service_result
  uninstall-registered w =
      connected_ok (M.connect w.state)
        (open_service M o.config.daemon_id >>= λ s.
          finally (with_held drop_service) (remove_service M o s))
        false w (λ v same. opened_ok _ v (λ s found. lawful.open-name v.state _ s found))

  -- Code that keeps what is registered, with the connection and the service around it.
  abbrev Leaves : {A : Type 0} → Task M A → Type 0
  Leaves m = (w : World M) → registered (m w).1 ≡ registered w

  connected-Leaves :
      {A : Type 0} (failure : Option Bytes) (body : Task M A)
      → Leaves body
      → Leaves (connect_result M failure >> finally (with_held drop_manager) body)
  unfolding connect_result
  connected-Leaves none body h w = h _
  connected-Leaves (some e) body h w = refl

  opened-Leaves :
      {A : Type 0} (r : Result M.Service) (body : M.Service → Task M A)
      → ((s : M.Service) → Leaves (body s))
      → Leaves (service_result M r >>= λ s. finally (with_held drop_service) (body s))
  unfolding service_result
  opened-Leaves (ok s) body h w = h s _
  opened-Leaves (err e) body h w = refl

  pub start-registered : Leaves (start M o)
  unfolding start start_service connect_result service_result
  start-registered w =
      connected-Leaves (M.connect w.state)
        (open_service M o.config.daemon_id >>= λ s.
          finally (with_held drop_service) (start_service M s))
        (λ v.
          opened-Leaves (M.open_service v.state o.config.daemon_id) (start_service M)
            (λ s u. registered-check _ _ ∙ lawful.start-known u.state s _) v)
        w

  pub stop-registered : Leaves (stop M o)
  unfolding stop connect_result service_result
  stop-registered w =
      connected-Leaves (M.connect w.state)
        (open_service M o.config.daemon_id >>= λ s.
          finally (with_held drop_service) (stop_and_wait M s))
        (λ v.
          opened-Leaves (M.open_service v.state o.config.daemon_id) (stop_and_wait M)
            (λ s u.
              (stop_and_wait-Ends M s not_installed_err known name_of lawful o.config.daemon_id
                u).1)
            v)
        w
