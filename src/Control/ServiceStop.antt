-- ===== src/Control/ServiceStop.antt =====
-- `stopAndWait` and `defaultServiceStopTimeout` of control/controller_windows.go.
pub mod Releasing
pub mod Timeouts
pub mod Waiting
pub mod Stopped
use cyberdaemon.Prelude.{
  Bool, true, false, ◌++◌, Option, none, some, Bytes, codes, Result, ok, err, if◌then◌else◌, try,
  continue, ◌>>=◌,
}
use cyberdaemon.Prelude.Int.{ℤ, pos, int_eq, int64_add, int64_mul}
use cyberdaemon.Text.Decimal.{atoi}
use cyberdaemon.ServiceManager.{
  ServiceState, svc_stopped, Wakes, ticked, timed_out, Machine, Task, finally, with_held, in_state,
  add_ticker, drop_ticker, control_stop, open_key,
}

-- Durations are counted in nanoseconds: `time.Millisecond * time.Duration(v)`.
unfoldable pub milliseconds : ℤ → ℤ
unfolding int64_mul
milliseconds v = int64_mul (pos 1000000) v

abbrev pub tick_period : ℤ
unfolding milliseconds int64_mul
tick_period = milliseconds (pos 50)

timeout_of_text : Option ℤ → ℤ
timeout_of_text none = pos 0
timeout_of_text (some v) = milliseconds v

timeout_of_value : Result Bytes → ℤ
unfolding timeout_of_text
timeout_of_value (ok text) = timeout_of_text (atoi text)
timeout_of_value (err e) = pos 0

abbrev pub control_key : Bytes
control_key = codes "SYSTEM\\CurrentControlSet\\Control"

abbrev pub timeout_name : Bytes
timeout_name = codes "WaitToKillServiceTimeout"

unfoldable pub is_stopped : ServiceState → Bool
is_stopped svc_stopped = true
is_stopped _ = false

-- `timeout := defaultServiceStopTimeout(); if timeout == 0 { timeout = time.Millisecond * 20000 }`
unfoldable pub timeout_or_default : ℤ → ℤ
timeout_or_default timeout = if int_eq timeout (pos 0) then milliseconds (pos 20000) else timeout

-- `timeout + (timeDuration * 2)`
unfoldable pub deadline : ℤ → ℤ
unfolding int64_add
deadline timeout = int64_add timeout (int64_mul tick_period (pos 2))

module _ (M : Machine) where
  value_in : Result (Unit {0}) → Task M ℤ
  unfolding timeout_of_value
  value_in (ok u) w =
      (ok (timeout_of_value (M.get_string_value w.state control_key timeout_name)), w)
  value_in (err e) w = (ok (pos 0), w)

  -- `defaultServiceStopTimeout`; it does not close the key.
  unfoldable pub default_service_stop_timeout : Task M ℤ
  unfolding value_in
  default_service_stop_timeout = do opened ← try (open_key M control_key); value_in opened

  timed_out_error : ℤ → Bytes
  timed_out_error timeout = codes "service failed to stop after " ++ M.duration_string timeout

  -- The loop of `stopAndWait`, with the state that was last asked for.
  unfoldable pub wait_stopped : M.Service → ℤ → Wakes M.State → ServiceState → Task M (Unit {0})
  unfolding is_stopped timed_out_error
  wait_stopped s timeout (timed_out t) status w =
      if is_stopped status then (ok tt, w) else (err (timed_out_error timeout), in_state t w)
  wait_stopped s timeout (ticked t later) status w =
      let rest =
        continue (M.query t s) (λ next. wait_stopped s timeout later next) (in_state t w) in
      if is_stopped status then (ok tt, w) else rest

  await_stopped : M.Service → ℤ → ServiceState → Task M (Unit {0})
  unfolding wait_stopped deadline
  await_stopped s timeout status w =
      wait_stopped s timeout (M.wakes w.state tick_period (deadline timeout)) status
        (with_held add_ticker w)

  -- `stopAndWait`
  unfoldable pub stop_and_wait : M.Service → Task M (Unit {0})
  unfolding default_service_stop_timeout timeout_or_default await_stopped
  stop_and_wait s = do
    status ← control_stop M s
    timeout ← default_service_stop_timeout
    finally (with_held drop_ticker) (await_stopped s (timeout_or_default timeout) status)
