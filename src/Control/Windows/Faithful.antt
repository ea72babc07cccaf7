-- ===== src/Control/Windows/Faithful.antt =====
-- The Windows controller keeps the contract of Control/Contract.antt, where services stop in time: the
-- daemon is installed where a service of its name is registered.
use cyberdaemon.Prelude.{
  true, false, Bool, ◌≡◌, ◌↔◌, ◌≢◌, refl, sym, ◌∙◌, ap, Option, none, some, Bytes, bytes_eq,
  eq_of_bytes_eq, Result, ok, err, if-cases, continue, try, pure, ◌>>=◌, ◌>>◌,
}
use cyberdaemon.ServiceManager.{
  ServiceState, svc_stopped, svc_start_pending, svc_stop_pending, svc_running, svc_continue_pending,
  svc_pause_pending, svc_paused, svc_other, Machine, World, Task, finally, with_held, drop_manager,
  add_manager, add_service, connect_result, open_service, service_result,
}
use cyberdaemon.ServiceManager.Laws.{IsLawful}
use cyberdaemon.Control.{Status, not_installed}
use cyberdaemon.Control.Contract.{IsFaithful}
use cyberdaemon.Control.ServiceStop.{stop_and_wait}
use cyberdaemon.Control.Windows.Registering.{
  is_registered, install-registered, uninstall-registered, start-registered, stop-registered,
}
use cyberdaemon.Control.Windows.{
  WindowsController, not_installed_err, status_of_state, status_of_error, status_of_opened, status,
  controller,
}

status_of_state-ne-not_installed : (s : ServiceState) → status_of_state s ≢ not_installed
unfolding status_of_state
status_of_state-ne-not_installed svc_stopped h = cc
status_of_state-ne-not_installed svc_start_pending h = cc
status_of_state-ne-not_installed svc_stop_pending h = cc
status_of_state-ne-not_installed svc_running h = cc
status_of_state-ne-not_installed svc_continue_pending h = cc
status_of_state-ne-not_installed svc_pause_pending h = cc
status_of_state-ne-not_installed svc_paused h = cc
status_of_state-ne-not_installed (svc_other n) h = cc

module _ (M : Machine) (known : M.State → Bytes → Bool) (name_of : M.Service → Bytes)
    (lawful : IsLawful M not_installed_err known name_of)
    (stops : (w : World M) (s : M.Service) (e : Bytes)
      → (stop_and_wait M s w).0 ≡ err e
      → M.query (stop_and_wait M s w).1.state s ≡ ok svc_stopped)
    (o : WindowsController) where
  abbrev registered : World M → Bool
  registered = is_registered M known o

  -- A status that is returned says whether the service is registered, and nothing is changed.
  abbrev Says : World M → Result Status × World M → Type 0
  Says w end =
      ((s : Status) → end.0 ≡ ok s → (s ≡ not_installed) ↔ (registered w ≡ false))
      × (registered end.1 ≡ registered w)

  queried-Says :
      (r : Result ServiceState) (w : World M)
      → registered w ≡ true
      → Says w (continue r (λ state. pure (status_of_state state)) w)
  queried-Says (ok state) w here = (
    λ s h. (
      λ e. absurd (
          status_of_state-ne-not_installed state (let k : status_of_state state ≡ s = cc in k ∙ e)),
      λ gone. cc,
    ),
    refl,
  )
  queried-Says (err e) w here = (λ s h. cc, refl)

  opened-Says :
      (r : Result M.Service) (w : World M)
      → M.open_service w.state o.config.daemon_id ≡ r
      → Says w ((try (service_result M r) >>= λ opened. status_of_opened M opened) w)
  unfolding service_result status_of_opened status_of_error
  opened-Says (ok s) w found =
      queried-Says (M.query w.state s) (with_held add_service w)
        (lawful.open-known w.state _ s found)
  opened-Says (err e) w found =
      if-cases (λ (m : Task M Status). Says w (m w)) (bytes_eq e not_installed_err)
        (λ same. (
          λ s h. (
            λ _.
                lawful.open-missing w.state _
                  (found ∙ ap err (eq_of_bytes_eq e not_installed_err same)),
            λ _. let k : not_installed ≡ s = cc in sym k,
          ),
          refl,
        ))
        (λ _. (λ s h. cc, refl))

  connected-Says :
      (failure : Option Bytes) (w : World M)
      → Says w (
          (connect_result M failure
              >> finally
                  (with_held drop_manager)
                  (try (open_service M o.config.daemon_id) >>= λ opened. status_of_opened M opened))
            w)
  unfolding connect_result service_result
  connected-Says none w =
      opened-Says (M.open_service w.state o.config.daemon_id) (with_held add_manager w) refl
  connected-Says (some e) w = (λ s h. cc, refl)

  status-Says : (w : World M) → Says w (status M o w)
  unfolding status connect_result
  status-Says w = connected-Says (M.connect w.state) w

  -- The Windows controller keeps the contract of a controller, the daemon being installed exactly
  -- where a service of its name is registered, if the service manager keeps its laws and a stop
  -- that fails leaves a stopped service, as it does where the service was not running to begin with.
  pub windows-IsFaithful : IsFaithful (controller M o) (is_registered M known o)
  unfolding controller
  windows-IsFaithful = record {
    status-says = λ w. (status-Says w).0;
    installed-status = λ w. (status-Says w).1;
    installed-start = start-registered M known name_of lawful stops o;
    installed-stop = stop-registered M known name_of lawful stops o;
    installed-install = install-registered M known name_of lawful stops o;
    installed-uninstall = uninstall-registered M known name_of lawful stops o;
  }
