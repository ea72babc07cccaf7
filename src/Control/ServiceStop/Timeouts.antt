-- ===== src/Control/ServiceStop/Timeouts.antt =====
-- How long `stopAndWait` waits, by the registry value, and where 64 bits are too few for it.
use cyberdaemon.Prelude.{ℕ, ◌*◌, ◌^◌, ◌≤◌, ◌<◌, ◌≡◌, ◌↔◌, refl, none, ok, arith}
use cyberdaemon.Prelude.Int.{pos, int64_mul, int_of_uint64}
use cyberdaemon.Text.Decimal.{decimal, atoi-decimal}
use cyberdaemon.ServiceManager.{Machine, World, key_result}
use cyberdaemon.Control.ServiceStop.{
  milliseconds, default_service_stop_timeout, control_key, timeout_name, value_in, timeout_of_value,
  timeout_of_text,
}

milliseconds_fits : (n : ℕ) → n ≤ 9223372036854 → milliseconds (pos n) ≡ pos (n * 1000000)
unfolding milliseconds int64_mul int_of_uint64
milliseconds_fits n h = ground arith

milliseconds_exact : (n : ℕ) → milliseconds (pos n) ≡ pos (n * 1000000) → n ≤ 9223372036854
unfolding milliseconds int64_mul int_of_uint64
milliseconds_exact n h = ground arith

module _ (M : Machine) (w : World M) where
  -- With a key that can be opened, and a decimal number of milliseconds in it.
  default_timeout-decimal :
      (n : ℕ)
      → M.open_key w.state control_key ≡ none
      → M.get_string_value w.state control_key timeout_name ≡ ok (decimal n)
      → n < 2 ^ 63
      → (default_service_stop_timeout M w).0 ≡ ok (milliseconds (pos n))
  unfolding default_service_stop_timeout value_in timeout_of_value timeout_of_text key_result
  default_timeout-decimal n opened value small = rw (opened, value, atoi-decimal n small) refl

  -- Where the registry gives a decimal number of milliseconds that an `int` can hold, the time-out
  -- is that number of milliseconds, counted in nanoseconds, exactly up to 9223372036854 of them.
  -- Above that the product wraps around.
  pub default_timeout-exact_iff :
      (n : ℕ)
      → M.open_key w.state control_key ≡ none
      → M.get_string_value w.state control_key timeout_name ≡ ok (decimal n)
      → n < 2 ^ 63
      → ((default_service_stop_timeout M w).0 ≡ ok (pos (n * 1000000))) ↔ (n ≤ 9223372036854)
  default_timeout-exact_iff n opened value small =
      let read = default_timeout-decimal n opened value small in
      (λ h. milliseconds_exact n (cc (read, h)), λ fits. cc (read, milliseconds_fits n fits))
