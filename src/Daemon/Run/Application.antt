-- ===== src/Daemon/Run/Application.antt =====
-- The life of an application under the daemonizers.
use cyberdaemon.Prelude.{
  ◌&&◌, List, [], ◌∷◌, ◌++◌, ◌≡◌, refl, sym, subst, Option, none, some, Bytes, Bool-cases, inl, inr,
}
use cyberdaemon.Prelude.Int.{ℤ, pos}
use cyberdaemon.Control.{LogConfig}
use cyberdaemon.Daemon.{
  Host, Runtime, Step, Exit, returned, waiting, started_application, stopped_application,
  received_signal, set_flags, set_output, finish,
}
use cyberdaemon.Daemon.Run.{
  is_positive, is_daemon, run_application, with_flags, systemd_run, darwin_run,
}

-- How the life of an application that is started in some state may go: the exit of the program,
-- and the steps, the latest first.
pub data Life (H : Host) (s : H.os.State) : Exit → List Step → Type 0 where
  -- `Start` fails, and its error is returned.
  refused :
      {e : Bytes}
      → (H.start_application s).1 ≡ some e
      → Life H s (returned (some e)) (started_application ∷ [])
  -- No signal is ever received.
  goes_on :
      (H.start_application s).1 ≡ none
      → H.await_signal (H.start_application s).0 ≡ none
      → Life H s waiting (started_application ∷ [])
  -- A signal is received, then `Stop` is called once, and its result is returned.
  ended :
      {t : H.os.State}
      → (H.start_application s).1 ≡ none
      → H.await_signal (H.start_application s).0 ≡ some t
      → Life H s
          (returned (H.stop_application t).1)
          (stopped_application ∷ received_signal ∷ started_application ∷ [])

-- The steps that a program adds, with the life that they make.
pub record Lives (H : Host) (r : Runtime H) (end : Exit × Runtime H) : Type 0 where
  pub steps : List Step
  pub life : Life H r.world.state end.0 steps
  pub added : end.1.steps ≡ steps ++ r.steps

module _ {H : Host} where
  -- `run_application` by what `Start` and the wait for a signal come to.
  by_outcome :
      (r : Runtime H) (start_error : Option Bytes) (signal : Option H.os.State)
      → (H.start_application r.world.state).1 ≡ start_error
      → H.await_signal (H.start_application r.world.state).0 ≡ signal
      → Lives H r (run_application r)
  unfolding run_application
  by_outcome r (some e) signal h k = record {
    steps = started_application ∷ [];
    life =
        subst (λ x. Life H r.world.state x (started_application ∷ []))
          (sym (rw (run_application, h))) (refused h);
    added = rw (run_application, h);
  }
  by_outcome r none none h k = record {
    steps = started_application ∷ [];
    life =
        subst (λ x. Life H r.world.state x (started_application ∷ []))
          (sym (rw (run_application, h, k))) (goes_on h k);
    added = rw (run_application, h, k);
  }
  by_outcome r none (some t) h k = record {
    steps = stopped_application ∷ received_signal ∷ started_application ∷ [];
    life =
        subst
          (λ x.
            Life H r.world.state x
              (stopped_application ∷ received_signal ∷ started_application ∷ []))
          (sym (rw (run_application, h, k))) (ended h k);
    added = rw (run_application, h, k);
  }

  pub run_application-Lives : (r : Runtime H) → Lives H r (run_application r)
  run_application-Lives r =
      by_outcome r (H.start_application r.world.state).1
        (H.await_signal (H.start_application r.world.state).0) refl refl

  finish-Lives :
      (r : Runtime H) (flags : ℤ) (end : Exit × Runtime H)
      → Lives H r end
      → Lives H r (finish (set_flags flags) end)
  finish-Lives r flags (returned e, after) h = record {
    steps = h.steps;
    life = h.life;
    added = h.added;
  }
  finish-Lives r flags (waiting, after) h = h

  pub with_flags-Lives :
      (config : LogConfig) (r : Runtime H) → Lives H r (with_flags config run_application r)
  unfolding with_flags
  with_flags-Lives config r = elim (Bool-cases (is_positive config.native_log_flags)) [
    | inl on ↦ rw on (
        finish-Lives r r.log_flags (run_application (set_flags config.native_log_flags r))
          (as_before r (run_application-Lives (set_flags config.native_log_flags r))))
    | inr off ↦ rw off (run_application-Lives r)
  ]
    where
      as_before :
          (r : Runtime H) {end : Exit × Runtime H}
          → Lives H (set_flags config.native_log_flags r) end
          → Lives H r end
      as_before r h = record { steps = h.steps; life = h.life; added = h.added }

  -- With systemd, the application is started once, and stopped exactly if its start succeeded and
  -- a signal was received; the result is the error of the start, or that of the stop.
  pub systemd_run-Lives : (config : LogConfig) (r : Runtime H) → Lives H r (systemd_run config r)
  unfolding systemd_run
  systemd_run-Lives config r = elim (Bool-cases (config.use_native_logger && is_daemon r)) [
    | inl on ↦ rw on (
        let h = with_flags-Lives config (set_flags (pos 0) (set_output r)) in
        record { steps = h.steps; life = h.life; added = h.added })
    | inr off ↦ rw off (run_application-Lives r)
  ]

  -- On macOS, the application is started once, and stopped exactly if its start succeeded and a
  -- signal was received; the result is the error of the start, or that of the stop.
  pub darwin_run-Lives : (config : LogConfig) (r : Runtime H) → Lives H r (darwin_run config r)
  unfolding darwin_run
  darwin_run-Lives config r = elim (Bool-cases (config.use_native_logger && is_daemon r)) [
    | inl on ↦ rw on (
        let h = with_flags-Lives config (set_output r) in
        record { steps = h.steps; life = h.life; added = h.added })
    | inr off ↦ rw off (run_application-Lives r)
  ]
