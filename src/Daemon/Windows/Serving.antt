-- ===== src/Daemon/Windows/Serving.antt =====
-- What the service manager and the caller of `RunUntilExit` see of a Windows service.
use cyberdaemon.Prelude.{
  suc, true, false, List, [], ◌∷◌, ◌++◌, ◌≡◌, refl, ap, ◌∙◌, Option, none, some, Bytes, All,
}
use cyberdaemon.Daemon.Windows.{
  Application, Wrapper, Request, interrogate, stop, shutdown, other, Report, start_pending,
  stop_pending, accepting, current, Outcome, first_error, report, set_start_stop_error, stop_app,
  stop_result, serve_requests, start_result, execute, run_and_block,
}

-- A request to stop.
abbrev pub IsStop : {C : Type 0} → Request C → Type 0
IsStop (interrogate s) = ⊥
IsStop stop = Unit
IsStop shutdown = Unit
IsStop other = ⊥

abbrev pub GoesOn : {C : Type 0} → Request C → Type 0
GoesOn (interrogate s) = Unit
GoesOn stop = ⊥
GoesOn shutdown = ⊥
GoesOn other = Unit

-- The answers to requests that do not stop the service, the latest first, in front of others.
abbrev pub answers : {C : Type 0} → List (Request C) → List (Report C) → List (Report C)
answers [] later = later
answers (interrogate s ∷ rest) later = answers rest (current s ∷ later)
answers (stop ∷ rest) later = answers rest later
answers (shutdown ∷ rest) later = answers rest later
answers (other ∷ rest) later = answers rest later

-- The code of a stop.
abbrev pub stop_code : Option Bytes → Outcome
stop_code (some e) = some (true, 2)
stop_code none = some (false, 0)

first_error_twice : (a b : Option Bytes) → first_error (first_error a none) b ≡ first_error a b
first_error_twice (some e) b = refl
first_error_twice none b = refl

module _ {A : Application} {C : Type 0} where
  -- The wrapper after such requests.
  abbrev answered : List (Request C) → Wrapper A C → Wrapper A C
  answered before o = record {
    app = o.app;
    last_err = o.last_err;
    reports = answers before o.reports;
    stops = o.stops;
  }

  serve_requests-answered :
      (before rest : List (Request C)) (o : Wrapper A C)
      → All GoesOn before
      → serve_requests (before ++ rest) o ≡ serve_requests rest (answered before o)
  unfolding serve_requests
  serve_requests-answered [] rest o h = refl
  serve_requests-answered (interrogate s ∷ before) rest o (h, hs) =
      serve_requests-answered before rest (report (current s) o) hs
  serve_requests-answered (other ∷ before) rest o (h, hs) = serve_requests-answered before rest o hs
  serve_requests-answered (stop ∷ before) rest o (h, hs) = absurd h
  serve_requests-answered (shutdown ∷ before) rest o (h, hs) = absurd h

  serve_requests-stop :
      (r : Request C) (rest : List (Request C)) (o : Wrapper A C)
      → IsStop r
      → serve_requests (r ∷ rest) o ≡ stop_app o
  unfolding serve_requests
  serve_requests-stop stop rest o h = refl
  serve_requests-stop shutdown rest o h = refl
  serve_requests-stop (interrogate s) rest o h = absurd h
  serve_requests-stop other rest o h = absurd h

  execute_stopped :
      (before rest : List (Request C)) (r : Request C) (o : Wrapper A C)
      → All GoesOn before
      → IsStop r
      → (A.start o.app).1 ≡ none
      → execute (before ++ r ∷ rest) o
        ≡ stop_app (record {
          app = (A.start o.app).0;
          last_err = o.last_err;
          reports = answers before (accepting ∷ start_pending ∷ o.reports);
          stops = o.stops;
        })
  unfolding execute start_result
  execute_stopped before rest r o goes stops started =
      rw (started, start_result)
        (serve_requests-answered before (r ∷ rest) _ goes ∙ serve_requests-stop r rest _ stops)

  stop_result_lem :
      (failure : Option Bytes) (o : Wrapper A C)
      → ((stop_result failure o).0 ≡ stop_code failure)
        × ((stop_result failure o).1.last_err ≡ first_error failure o.last_err)
        × ((stop_result failure o).1.reports ≡ o.reports)
        × ((stop_result failure o).1.stops ≡ o.stops)
  unfolding stop_result set_start_stop_error
  stop_result_lem (some e) o = (refl, refl, refl, refl)
  stop_result_lem none o = (refl, refl, refl, refl)

  -- Once the application has started, each interrogation before the first stop or shutdown is
  -- answered with the state that came with it, in order, and that first request stops the
  -- application, once, whatever comes after it. The code is 0 if the stop succeeds; otherwise it
  -- is 2, and the error is kept.
  pub execute-stopped :
      (before rest : List (Request C)) (r : Request C) (o : Wrapper A C)
      → All GoesOn before
      → IsStop r
      → (A.start o.app).1 ≡ none
      → ((execute (before ++ r ∷ rest) o).0 ≡ stop_code (A.stop (A.start o.app).0).1)
        × ((execute (before ++ r ∷ rest) o).1.last_err
            ≡ first_error (A.stop (A.start o.app).0).1 o.last_err)
        × ((execute (before ++ r ∷ rest) o).1.reports
            ≡ stop_pending ∷ answers before (accepting ∷ start_pending ∷ o.reports))
        × ((execute (before ++ r ∷ rest) o).1.stops ≡ suc o.stops)
  unfolding stop_app
  execute-stopped before rest r o goes stops started =
      rw (execute_stopped before rest r o goes stops started) (stop_result_lem _ _)

  start_failed :
      (requests : List (Request C)) (o : Wrapper A C) (e : Bytes)
      → (A.start o.app).1 ≡ some e
      → ((execute requests o).0 ≡ some (true, 1))
        × ((execute requests o).1.last_err ≡ some e)
        × ((execute requests o).1.stops ≡ o.stops)
  unfolding execute start_result set_start_stop_error
  start_failed requests o e h = rw (h, start_result) (refl, refl, refl)

  -- A start that fails is never followed by a stop: the code is 1, and `runAndBlock` returns the
  -- error of the start, whatever `svc.Run` returns and whatever error was kept before.
  pub run_and_block-start_failed :
      (requests : List (Request C)) (o : Wrapper A C) (e : Bytes) (run_err : Option Bytes)
      → (A.start o.app).1 ≡ some e
      → ((run_and_block (λ v. ((execute requests v).1, run_err)) o).0 ≡ some e)
        × ((run_and_block (λ v. ((execute requests v).1, run_err)) o).1.stops ≡ o.stops)
  unfolding run_and_block set_start_stop_error
  run_and_block-start_failed requests o e run_err h =
      let reset : Wrapper A C = set_start_stop_error none o in
      let (code, kept, stops) = start_failed requests reset e h in
      (ap (λ t. first_error t run_err) kept, stops)

  -- For a service that is stopped, `runAndBlock` returns the error of the stop if there is one, and
  -- otherwise that of `svc.Run`; an error that was kept before is forgotten.
  pub run_and_block-stopped :
      (before rest : List (Request C)) (r : Request C) (o : Wrapper A C) (run_err : Option Bytes)
      → All GoesOn before
      → IsStop r
      → (A.start o.app).1 ≡ none
      → (run_and_block (λ v. ((execute (before ++ r ∷ rest) v).1, run_err)) o).0
        ≡ first_error (A.stop (A.start o.app).0).1 run_err
  unfolding run_and_block set_start_stop_error
  run_and_block-stopped before rest r o run_err goes stops started =
      let reset : Wrapper A C = set_start_stop_error none o in
      ap (λ t. first_error t run_err) (execute-stopped before rest r reset goes stops started).1
      ∙ first_error_twice (A.stop (A.start o.app).0).1 run_err
