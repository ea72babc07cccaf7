-- ===== src/Control/ServiceStop/Waiting.antt =====
-- When `stopAndWait` succeeds, and what it leaves behind.
use cyberdaemon.Prelude.{
  true, false, List, [], ◌∷◌, ◌++◌, ◌≡◌, ◌≢◌, ◌↔◌, refl, sym, ap, Result, ok, err, All, Option,
  none, some, Bytes, Bool-cases, inl, inr, continue, ◌>>=◌, subst, if◌then◌else◌,
}
use cyberdaemon.Prelude.Int.{ℤ, pos, int_eq, int64_add, int64_mul}
use cyberdaemon.ServiceManager.{
  ServiceState, svc_stopped, Wakes, ticked, timed_out, Machine, World, finally, with_held,
  drop_ticker, called, stop_requested, in_state, key_result,
}
use cyberdaemon.Control.ServiceStop.{
  stop_and_wait, wait_stopped, await_stopped, default_service_stop_timeout, value_in, is_stopped,
  milliseconds, deadline, tick_period, control_key, timeout_name, timeout_or_default,
  timeout_of_value,
}

-- The answers to the queries that the loop would make, one at each tick.
abbrev pub answers : (M : Machine) → M.Service → Wakes M.State → List (Result ServiceState)
answers M s (timed_out t) = []
answers M s (ticked t later) = M.query t s ∷ answers M s later

-- An answer other than a failure or the stopped state.
abbrev pub IsPending : Result ServiceState → Type 0
IsPending (ok state) = is_stopped state ≡ false
IsPending (err e) = ⊥

-- The first answer that is not pending says that the service is stopped.
pub record SeesStopped (seen : List (Result ServiceState)) : Type 0 where
  pub before : List (Result ServiceState)
  pub after : List (Result ServiceState)
  pub splits : before ++ ok svc_stopped ∷ after ≡ seen
  pub pending : All IsPending before

pub is_stopped-svc_stopped : (state : ServiceState) → is_stopped state ≡ true → state ≡ svc_stopped
unfolding is_stopped
is_stopped-svc_stopped svc_stopped h = refl
is_stopped-svc_stopped _ h = cc

SeesStopped_pending :
    (state : ServiceState) (seen : List (Result ServiceState))
    → is_stopped state ≡ false
    → SeesStopped (ok state ∷ seen) ↔ SeesStopped seen
unfolding is_stopped
SeesStopped_pending state seen h = (
  there,
  λ r. record {
    before = ok state ∷ r.before;
    after = r.after;
    splits = ap (λ t. ok state ∷ t) r.splits;
    pending = (h, r.pending);
  },
)
  where
    there : SeesStopped (ok state ∷ seen) → SeesStopped seen
    there r = go r.before r.splits r.pending
      where
        go :
            (before : List (Result ServiceState))
            → before ++ ok svc_stopped ∷ r.after ≡ ok state ∷ seen
            → All IsPending before
            → SeesStopped seen
        go [] e p = let same : state ≡ svc_stopped = cc in cc (ap is_stopped same, h)
        go (x ∷ before) e (p, q) = record {
          before = before;
          after = r.after;
          splits = cc;
          pending = q;
        }

SeesStopped_now : (seen : List (Result ServiceState)) → SeesStopped (ok svc_stopped ∷ seen)
SeesStopped_now seen = record { before = []; after = seen; splits = refl; pending = tt }

sees-ne-nil :
    (x : Result ServiceState) (before after : List (Result ServiceState)) → before ++ x ∷ after ≢ []
sees-ne-nil x [] after h = cc
sees-ne-nil x (y ∷ before) after h = cc

-- Neither the timer nor a query that fails is the stopped state.
SeesStopped_nil : SeesStopped [] → ⊥
SeesStopped_nil r = sees-ne-nil (ok svc_stopped) r.before r.after r.splits

SeesStopped_failed :
    (e : Bytes) (seen : List (Result ServiceState)) → SeesStopped (err e ∷ seen) → ⊥
SeesStopped_failed e seen r = go r.before r.after r.splits r.pending
  where
    go :
        (before after : List (Result ServiceState))
        → before ++ ok svc_stopped ∷ after ≡ err e ∷ seen
        → All IsPending before
        → ⊥
    go [] after k p = cc
    go (err e' ∷ before) after k (p, q) = p
    go (ok state' ∷ before) after k p = cc

module _ (M : Machine) (s : M.Service) (timeout : ℤ) where
  wait_stopped_at_once :
      (wakes : Wakes M.State) (status : ServiceState) (w : World M)
      → is_stopped status ≡ true
      → wait_stopped M s timeout wakes status w ≡ (ok tt, w)
  unfolding wait_stopped
  wait_stopped_at_once (timed_out t) status w e = rw e refl
  wait_stopped_at_once (ticked t later) status w e = rw e refl

  by_status :
      (wakes : Wakes M.State) (status : ServiceState) (w : World M)
      → (is_stopped status ≡ false
          → ((wait_stopped M s timeout wakes status w).0 ≡ ok tt) ↔ SeesStopped (answers M s wakes))
      → ((wait_stopped M s timeout wakes status w).0 ≡ ok tt)
        ↔ SeesStopped (ok status ∷ answers M s wakes)
  by_status wakes status w in_loop = elim (Bool-cases (is_stopped status)) [
    | inl e ↦ (
      λ _.
          subst (λ state. SeesStopped (ok state ∷ answers M s wakes))
            (sym (is_stopped-svc_stopped status e)) (SeesStopped_now _),
      λ _. ap (λ end. end.0) (wait_stopped_at_once wakes status w e),
    )
    | inr e ↦
        let same = SeesStopped_pending status (answers M s wakes) e in
        let (there, back) = in_loop e in (λ h. same.1 (there h), λ r. back (same.0 r))
  ]

  by_answer :
      (later : Wakes M.State) (r : Result ServiceState) (w : World M)
      → ((next : ServiceState)
          → ((wait_stopped M s timeout later next w).0 ≡ ok tt)
            ↔ SeesStopped (ok next ∷ answers M s later))
      → ((continue r (λ next. wait_stopped M s timeout later next) w).0 ≡ ok tt)
        ↔ SeesStopped (r ∷ answers M s later)
  by_answer later (ok next) w h = h next
  by_answer later (err e) w h = (λ k. cc, λ r. absurd (SeesStopped_failed e _ r))

  -- The loop succeeds exactly if it sees the service stopped before a query fails and before the
  -- timer fires.
  wait_stopped-ok_iff :
      (wakes : Wakes M.State) (status : ServiceState) (w : World M)
      → ((wait_stopped M s timeout wakes status w).0 ≡ ok tt)
        ↔ SeesStopped (ok status ∷ answers M s wakes)
  unfolding wait_stopped
  wait_stopped-ok_iff (timed_out t) status w =
      by_status (timed_out t) status w (λ e. rw e (λ h. cc, λ r. absurd (SeesStopped_nil r)))
  wait_stopped-ok_iff (ticked t later) status w = by_status (ticked t later) status w (λ e. rw e (
      by_answer later (M.query t s) (in_state t w)
        (λ next. wait_stopped-ok_iff later next (in_state t w))))

-- The time-out by whether the key can be opened, and by its value.
abbrev pub timeout_of : Option Bytes → Result Bytes → ℤ
unfolding timeout_of_value
timeout_of none value = timeout_of_value value
timeout_of (some e) value = pos 0

-- The time-out that the registry gives.
abbrev pub registry_timeout : (M : Machine) → M.State → ℤ
registry_timeout M t =
    timeout_of (M.open_key t control_key) (M.get_string_value t control_key timeout_name)

-- When the timer fires, in nanoseconds: two ticks of 50 milliseconds after the time-out, which is 20
-- seconds if none is given; in 64 bits.
abbrev pub timer_of : ℤ → ℤ
timer_of timeout =
    int64_add (if int_eq timeout (pos 0) then pos 20000000000 else timeout) (pos 100000000)

module _ (M : Machine) (s : M.Service) where
  -- The answers, beginning with that to the stop request, which the wait may see.
  abbrev pub seen : M.State → ServiceState → List (Result ServiceState)
  seen t status =
      ok status ∷ answers M s (M.wakes t (pos 50000000) (timer_of (registry_timeout M t)))

  -- What follows the stop request.
  after_request : ServiceState → Result ℤ → World M → Result (Unit {0}) × World M
  after_request status r w =
      continue r
        (λ timeout.
          finally (with_held drop_ticker) (await_stopped M s (timeout_or_default timeout) status))
        w

  by_key :
      (failure : Option Bytes) (status : ServiceState) (w : World M)
      → let (r, w') = key_result M failure w in
        let (timeout, w'') = value_in M r w' in
        ((after_request status timeout w'').0 ≡ ok tt)
        ↔ SeesStopped (
            ok status
            ∷ answers M s (
                M.wakes w.state tick_period (
                  deadline (
                    timeout_or_default
                      (timeout_of failure (M.get_string_value w.state control_key timeout_name))))))
  unfolding after_request value_in key_result await_stopped
  by_key none status w = wait_stopped-ok_iff M s _ _ status _
  by_key (some e) status w = wait_stopped-ok_iff M s _ _ status _

  by_request :
      (r : Result ServiceState) (w : World M)
      → ((continue r
            (λ status. default_service_stop_timeout M >>= λ timeout.
              finally
                (with_held drop_ticker)
                (await_stopped M s (timeout_or_default timeout) status))
            w).0
          ≡ ok tt)
        ↔ ((status : ServiceState) × ((r ≡ ok status) × SeesStopped (seen w.state status)))
  unfolding default_service_stop_timeout by_key after_request deadline timeout_or_default int64_add
      milliseconds int64_mul
  by_request (ok status) w =
      let (there, back) = by_key (M.open_key w.state control_key) status w in
      (
        λ h. (status, (refl, there h)),
        λ (state, (e, sees)). back (
            subst (λ t. SeesStopped (seen w.state t)) (let same : state ≡ status = cc in same)
              sees),
      )
  by_request (err e) w = (λ h. cc, λ (state, (k, sees)). cc)

  -- `stopAndWait` succeeds exactly if the service accepts the stop request and then is seen stopped,
  -- by the answer to that request or by a query at a tick of 50 milliseconds, before a query fails and
  -- before the timer fires, which is set to the registry's time-out, or to 20 seconds where that is 0,
  -- and two ticks more.
  pub stop_and_wait-ok_iff :
      (w : World M)
      → ((stop_and_wait M s w).0 ≡ ok tt) ↔ (
          (status : ServiceState) × (((M.control_stop w.state s).1 ≡ ok status)
            × SeesStopped (seen (M.control_stop w.state s).0 status)))
  unfolding stop_and_wait
  stop_and_wait-ok_iff w =
      by_request (M.control_stop w.state s).1
        (called (stop_requested s) (M.control_stop w.state s).0 w)
