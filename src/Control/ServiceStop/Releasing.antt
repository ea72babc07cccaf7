-- ===== src/Control/ServiceStop/Releasing.antt =====
-- What stopping a service gives back.
use cyberdaemon.Prelude.{
  ℕ, ◌+◌, ◌≡◌, refl, ap, ◌∙◌, Bytes, Result, ok, err, Option, none, some, if-cases, continue, try,
  ◌>>=◌, arith,
}
use cyberdaemon.Prelude.Int.{ℤ}
use cyberdaemon.ServiceManager.{
  ServiceState, Wakes, ticked, timed_out, Machine, World, Task, finally, with_held, drop_ticker,
  add_ticker, control_stop, in_state, open_key, key_result, called, stop_requested, Handles,
}
use cyberdaemon.ServiceManager.Releasing.{Restores, Restores-bind, open_key-Restores, without_keys}
use cyberdaemon.Control.ServiceStop.{
  stop_and_wait, wait_stopped, await_stopped, default_service_stop_timeout, value_in, is_stopped,
  control_key, timeout_or_default,
}

module _ (M : Machine) (s : M.Service) where
  continue_held :
      {A : Type 0} (r : Result A) (f : A → Task M (Unit {0})) (w : World M)
      → ((a : A) → (f a w).1.held ≡ w.held)
      → (continue r f w).1.held ≡ w.held
  continue_held (ok a) f w h = h a
  continue_held (err e) f w h = refl

  -- The loop neither takes nor gives back a handle.
  wait_stopped-held :
      (timeout : ℤ) (wakes : Wakes M.State) (status : ServiceState) (w : World M)
      → (wait_stopped M s timeout wakes status w).1.held ≡ w.held
  unfolding wait_stopped
  wait_stopped-held timeout (timed_out t) status w =
      if-cases (λ (end : Result (Unit {0}) × World M). end.1.held ≡ w.held) (is_stopped status)
        (λ _. refl) (λ _. refl)
  wait_stopped-held timeout (ticked t later) status w =
      if-cases (λ (end : Result (Unit {0}) × World M). end.1.held ≡ w.held) (is_stopped status)
        (λ _. refl)
        (λ _.
          continue_held (M.query t s) (λ next. wait_stopped M s timeout later next) (in_state t w)
            (λ next. wait_stopped-held timeout later next (in_state t w)))

  await_stopped-held :
      (timeout : ℤ) (status : ServiceState) (w : World M)
      → (finally (with_held drop_ticker) (await_stopped M s timeout status) w).1.held ≡ w.held
  unfolding await_stopped
  await_stopped-held timeout status w =
      ap drop_ticker (wait_stopped-held timeout _ status (with_held add_ticker w))

  await_stopped-Restores :
      (timeout : ℤ) (status : ServiceState)
      → Restores M (finally (with_held drop_ticker) (await_stopped M s timeout status))
  await_stopped-Restores timeout status w = ap without_keys (await_stopped-held timeout status w)

  value_in-Restores : (r : Result (Unit {0})) → Restores M (value_in M r)
  unfolding value_in
  value_in-Restores (ok u) w = refl
  value_in-Restores (err e) w = refl

  timeout-Restores : Restores M (default_service_stop_timeout M)
  unfolding default_service_stop_timeout key_result
  timeout-Restores =
      Restores-bind (try (open_key M control_key)) (λ opened. value_in M opened)
        (open_key-Restores control_key) value_in-Restores

  pub stop_and_wait-Restores : Restores M (stop_and_wait M s)
  unfolding stop_and_wait
  stop_and_wait-Restores =
      Restores-bind (control_stop M s)
        (λ status. default_service_stop_timeout M >>= λ timeout.
          finally (with_held drop_ticker) (await_stopped M s (timeout_or_default timeout) status))
        (λ w. refl)
        (λ status.
          Restores-bind (default_service_stop_timeout M)
            (λ timeout.
              finally (with_held drop_ticker)
                (await_stopped M s (timeout_or_default timeout) status))
            timeout-Restores (λ timeout. await_stopped-Restores _ status))

-- How many registry keys a wait opens, by the answer to the stop request, and by the error of opening
-- the key.
abbrev pub keys_opened : Result ServiceState → Option Bytes → ℕ
keys_opened (ok status) none = 1
keys_opened (ok status) (some e) = 0
keys_opened (err e) failure = 0

module _ (M : Machine) (s : M.Service) where
  keys_after_request :
      (status : ServiceState) (failure : Option Bytes) (w : World M)
      → (let (opened, w') = key_result M failure w in
          (value_in M opened >>= λ timeout.
          finally (with_held drop_ticker) (await_stopped M s (timeout_or_default timeout) status))
            w').1.held.keys
        ≡ keys_opened (ok status) failure + w.held.keys
  unfolding key_result value_in
  keys_after_request status none w =
      ap (λ (h : Handles). h.keys) (await_stopped-held M s _ status _) ∙ omega arith
  keys_after_request status (some e) w =
      ap (λ (h : Handles). h.keys) (await_stopped-held M s _ status _) ∙ omega arith

  keys_by_answer :
      (r : Result ServiceState) (w : World M)
      → (continue r
          (λ status. default_service_stop_timeout M >>= λ timeout.
            finally (with_held drop_ticker) (await_stopped M s (timeout_or_default timeout) status))
          w).1.held.keys
        ≡ keys_opened r (M.open_key w.state control_key) + w.held.keys
  unfolding default_service_stop_timeout key_result
  keys_by_answer (ok status) w = keys_after_request status (M.open_key w.state control_key) w
  keys_by_answer (err e) w = omega arith

  -- `stopAndWait` leaves one registry key open wherever the service accepts the stop request and the
  -- key can be opened, however the wait ends, and none otherwise.
  pub stop_and_wait-keys :
      (w : World M)
      → (stop_and_wait M s w).1.held.keys
        ≡ keys_opened
            (M.control_stop w.state s).1
            (M.open_key (M.control_stop w.state s).0 control_key)
          + w.held.keys
  unfolding stop_and_wait
  stop_and_wait-keys w =
      keys_by_answer (M.control_stop w.state s).1
        (called (stop_requested s) (M.control_stop w.state s).0 w)
