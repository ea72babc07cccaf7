-- ===== src/Control/ServiceStop/Stopped.antt =====
-- What `stopAndWait` leaves of a service, and of what is registered.
use cyberdaemon.Prelude.{
  true, Bool, ◌≡◌, refl, ◌∙◌, ap, Option, none, some, Bytes, Result, ok, err, if-cases, continue,
  ◌>>=◌,
}
use cyberdaemon.Prelude.Int.{ℤ}
use cyberdaemon.ServiceManager.{
  ServiceState, svc_stopped, Wakes, ticked, timed_out, Machine, World, finally, with_held, in_state,
  called, stop_requested, drop_ticker, key_result,
}
use cyberdaemon.ServiceManager.Laws.{IsLawful, AtWakes}
use cyberdaemon.Control.ServiceStop.{
  stop_and_wait, wait_stopped, await_stopped, default_service_stop_timeout, value_in, is_stopped,
  control_key, timeout_or_default,
}
use cyberdaemon.Control.ServiceStop.Waiting.{is_stopped-svc_stopped}

module _ (M : Machine) (s : M.Service) where
  -- A state that was answered is that of the service by now, if it is the stopped one.
  abbrev Told : ServiceState → M.State → Type 0
  Told status t = is_stopped status ≡ true → M.query t s ≡ ok svc_stopped

  query-Told : (t : M.State) (next : ServiceState) → M.query t s ≡ ok next → Told next t
  query-Told t next asked stopped = asked ∙ ap ok (is_stopped-svc_stopped next stopped)

  abbrev EndsStopped : Result (Unit {0}) × World M → Type 0
  EndsStopped end = end.0 ≡ ok tt → M.query end.1.state s ≡ ok svc_stopped

  by_answer :
      (timeout : ℤ) (later : Wakes M.State) (r : Result ServiceState) (t : M.State) (w : World M)
      → M.query t s ≡ r
      → ((next : ServiceState)
          → Told next t
          → EndsStopped (wait_stopped M s timeout later next (in_state t w)))
      → EndsStopped (continue r (λ next. wait_stopped M s timeout later next) (in_state t w))
  by_answer timeout later (ok next) t w asked rest = rest next (query-Told t next asked)
  by_answer timeout later (err e) t w asked rest = λ h. cc

  wait_stopped-query :
      (timeout : ℤ) (wakes : Wakes M.State) (status : ServiceState) (w : World M)
      → Told status w.state
      → EndsStopped (wait_stopped M s timeout wakes status w)
  unfolding wait_stopped
  wait_stopped-query timeout (timed_out t) status w told =
      if-cases EndsStopped (is_stopped status) (λ e _. told e) (λ _ h. cc)
  wait_stopped-query timeout (ticked t later) status w told =
      if-cases EndsStopped (is_stopped status) (λ e _. told e)
        (λ _.
          by_answer timeout later (M.query t s) t w refl
            (λ next told_next. wait_stopped-query timeout later next (in_state t w) told_next))

  -- A property of the states at the wakes, and before them, holds where the loop ends.
  module _ (P : M.State → Type 0) where
    continue_state :
        {A : Type 0} (r : Result A) (f : A → World M → Result (Unit {0}) × World M) (w : World M)
        → P w.state
        → ((a : A) → P (f a w).1.state)
        → P (continue r f w).1.state
    continue_state (ok a) f w p h = h a
    continue_state (err e) f w p h = p

    wait_stopped_state :
        (timeout : ℤ) (wakes : Wakes M.State) (status : ServiceState) (w : World M)
        → AtWakes P wakes
        → P w.state
        → P (wait_stopped M s timeout wakes status w).1.state
    unfolding wait_stopped
    wait_stopped_state timeout (timed_out t) status w there p =
        if-cases (λ (end : Result (Unit {0}) × World M). P end.1.state) (is_stopped status) (λ _. p)
          (λ _. there)
    wait_stopped_state timeout (ticked t later) status w (there, rest) p =
        if-cases (λ (end : Result (Unit {0}) × World M). P end.1.state) (is_stopped status) (λ _. p)
          (λ _.
            continue_state (M.query t s) (λ next. wait_stopped M s timeout later next)
              (in_state t w) there
              (λ next. wait_stopped_state timeout later next (in_state t w) rest there))

module _ (M : Machine) (s : M.Service) (not_installed_err : Bytes) (known : M.State → Bytes → Bool)
    (name_of : M.Service → Bytes) (lawful : IsLawful M not_installed_err known name_of)
    (name : Bytes) where
  -- The end of a wait in the world `w`.
  abbrev Ends : World M → Result (Unit {0}) × World M → Type 0
  Ends w end = EndsStopped M s end × (known end.1.state name ≡ known w.state name)

  after_key :
      (failure : Option Bytes) (status : ServiceState) (w : World M)
      → Told M s status w.state
      → Ends w (
          let (opened, w') = key_result M failure w in
          (value_in M opened >>= λ timeout.
          finally (with_held drop_ticker) (await_stopped M s (timeout_or_default timeout) status))
            w')
  unfolding key_result value_in await_stopped
  after_key none status w told = (
    wait_stopped-query M s _ _ status _ told,
    wait_stopped_state M s (λ t. known t name ≡ known w.state name) _ _ status _
        (lawful.wakes-known w.state _ _ name) refl,
  )
  after_key (some e) status w told = (
    wait_stopped-query M s _ _ status _ told,
    wait_stopped_state M s (λ t. known t name ≡ known w.state name) _ _ status _
        (lawful.wakes-known w.state _ _ name) refl,
  )

  after_request :
      (r : Result ServiceState) (w : World M)
      → ((status : ServiceState) → r ≡ ok status → Told M s status w.state)
      → Ends w (
          continue r
            (λ status. default_service_stop_timeout M >>= λ timeout.
              finally
                (with_held drop_ticker)
                (await_stopped M s (timeout_or_default timeout) status))
            w)
  unfolding default_service_stop_timeout key_result
  after_request (ok status) w told =
      after_key (M.open_key w.state control_key) status w (told status refl)
  after_request (err e) w told = (λ h. cc, refl)

  -- Nothing is registered or removed by stopping a service, and where that succeeds the service is
  -- stopped by then, if the service manager keeps its laws.
  pub stop_and_wait-Ends :
      (w : World M)
      → ((stop_and_wait M s w).0 ≡ ok tt → M.query (stop_and_wait M s w).1.state s ≡ ok svc_stopped)
        × (known (stop_and_wait M s w).1.state name ≡ known w.state name)
  unfolding stop_and_wait
  stop_and_wait-Ends w =
      let (stopped, same) =
        after_request (M.control_stop w.state s).1
          (called (stop_requested s) (M.control_stop w.state s).0 w)
          (λ status answered told.
            lawful.control_stop-stopped w.state s
              (answered ∙ ap ok (is_stopped-svc_stopped status told))) in
      (stopped, same ∙ lawful.control_stop-known w.state s name)
