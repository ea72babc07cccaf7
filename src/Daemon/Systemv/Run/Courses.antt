-- ===== src/Daemon/Systemv/Run/Courses.antt =====
-- The courses that a launch of the System V daemon may take.
use cyberdaemon.Prelude.{
  ℕ, Bool, List, [], ◌∷◌, ◌++◌, ◌≡◌, refl, ap, Bytes, codes, Option, none, some, ok, err, Result,
}
use cyberdaemon.Prelude.Int.{ℤ}
use cyberdaemon.Text.Decimal.{decimal_int}
use cyberdaemon.Control.{LogConfig}
use cyberdaemon.Daemon.{
  Host, Runtime, Step, Exit, returned, waiting, created, launched, wrote, set_flags, finish,
}
use cyberdaemon.Daemon.Systemv.Run.{
  pid_line, write_result, write_pid, start_result, start_daemon, create_result,
}

-- The calls before the PID is written, from the state `s`: the file at `path` has been created as
-- `file`, and the process of the program's executable has been started with this file, which leaves
-- the state `u`, with its PID or an error.
pub record Started (H : Host) (s : H.os.State) (path : Bytes) (native : Bool) (exe : Bytes)
    (file : ℕ) (result : Result ℤ) (u : H.os.State) : Type 0 where
  pub opened_in : H.os.State
  pub is_executable : H.executable s ≡ ok exe
  pub opens : H.create_file s path 0o644 ≡ (opened_in, ok file)
  pub starts : H.start_process opened_in exe H.arguments native file ≡ (u, result)

-- How a launch with some PID file may go from the state `s`: the exit, and the steps, the latest
-- first. It always returns, and the application is in none of the steps. What is written, and to
-- which file, is the PID of the process that was started, in decimal digits on a line, to the file
-- that was created and handed to that process; the exit has no error exactly if all of that succeeds.
pub data Launch (H : Host) (s : H.os.State) (path : Bytes) (native : Bool)
    : Exit → List Step → Type 0 where
  no_executable :
      (cause : Bytes)
      → H.executable s ≡ err cause
      → Launch H s path native
          (returned (some (codes "failed to get executable path when exec'ing daemon - " ++ cause)))
          []
  not_created :
      (cause exe : Bytes) (t : H.os.State)
      → H.executable s ≡ ok exe
      → H.create_file s path 0o644 ≡ (t, err cause)
      → Launch H s path native
          (returned (some (codes "failed to open pid file - " ++ cause)))
          (created path ∷ [])
  not_started :
      (cause exe : Bytes) (file : ℕ) (u : H.os.State)
      → Started H s path native exe file (err cause) u
      → Launch H s path native
          (returned (some (codes "failed to exec daemon process - " ++ cause)))
          (launched exe H.arguments native file ∷ created path ∷ [])
  not_written :
      (cause exe : Bytes) (file : ℕ) (pid : ℤ) (u v : H.os.State)
      → Started H s path native exe file (ok pid) u
      → H.write_string u file (decimal_int pid ++ b'\n' ∷ []) ≡ (v, some cause)
      → Launch H s path native
          (returned (some (codes "failed to write daemon pid to pid file - " ++ cause)))
          (wrote file (decimal_int pid ++ b'\n' ∷ []) (some cause)
            ∷ launched exe H.arguments native file
            ∷ created path
            ∷ [])
  done :
      (exe : Bytes) (file : ℕ) (pid : ℤ) (u v : H.os.State)
      → Started H s path native exe file (ok pid) u
      → H.write_string u file (decimal_int pid ++ b'\n' ∷ []) ≡ (v, none)
      → Launch H s path native (returned none) (
          wrote file (decimal_int pid ++ b'\n' ∷ []) none
          ∷ launched exe H.arguments native file
          ∷ created path
          ∷ [])

pub record Launches (H : Host) (s : H.os.State) (path : Bytes) (native : Bool) (before : List Step)
    (end : Exit × Runtime H) : Type 0 where
  pub steps : List Step
  pub course : Launch H s path native end.0 steps
  pub added : end.1.steps ≡ steps ++ before

module _ {H : Host} (s : H.os.State) (path : Bytes) (config : LogConfig) (before : List Step)
    (exe : Bytes) (is_executable : H.executable s ≡ ok exe) where
  write_result-Launches :
      (file : ℕ) (pid : ℤ) (u : H.os.State) (failure : Option Bytes) (r : Runtime H)
      → Started H s path config.use_native_logger exe file (ok pid) u
      → H.write_string u file (decimal_int pid ++ b'\n' ∷ []) ≡ (r.world.state, failure)
      → r.steps
        ≡ wrote file (decimal_int pid ++ b'\n' ∷ []) failure
          ∷ launched exe H.arguments config.use_native_logger file
          ∷ created path
          ∷ before
      → Launches H s path config.use_native_logger before (write_result failure r)
  unfolding write_result
  write_result-Launches file pid u (some e) r started written h = record {
    steps = _;
    course = not_written e exe file pid u r.world.state started written;
    added = h;
  }
  write_result-Launches file pid u none r started written h = record {
    steps = _;
    course = done exe file pid u r.world.state started written;
    added = h;
  }

  start_result-Launches :
      (file : ℕ) (started : Result ℤ) (r : Runtime H)
      → Started H s path config.use_native_logger exe file started r.world.state
      → r.steps ≡ launched exe H.arguments config.use_native_logger file ∷ created path ∷ before
      → Launches H s path config.use_native_logger before (start_result file started r)
  unfolding start_result write_pid pid_line
  start_result-Launches file (err e) r started h = record {
    steps = _;
    course = not_started e exe file r.world.state started;
    added = h;
  }
  start_result-Launches file (ok pid) r started h =
      let (_, failure) = H.write_string r.world.state file (pid_line pid) in
      write_result-Launches file pid r.world.state _ _ started refl
        (ap (λ t. wrote file (pid_line pid) failure ∷ t) h)

  pub create_result-Launches :
      (opened : Result ℕ) (r : Runtime H)
      → H.create_file s path 0o644 ≡ (r.world.state, opened)
      → r.steps ≡ created path ∷ before
      → Launches H s path config.use_native_logger before (create_result config exe opened r)
  unfolding create_result start_daemon
  create_result-Launches (err e) r opens h = record {
    steps = _;
    course = not_created e exe r.world.state is_executable opens;
    added = h;
  }
  create_result-Launches (ok file) r opens h =
      start_result-Launches file _ _
        (record {
          opened_in = r.world.state;
          is_executable = is_executable;
          opens = opens;
          starts = refl;
        })
        (ap (λ t. launched exe H.arguments config.use_native_logger file ∷ t) h)

pub finish-Launches :
    {H : Host} {s : H.os.State} {path : Bytes} {native : Bool} {before : List Step} (flags : ℤ)
    (end : Exit × Runtime H)
    → Launches H s path native before end
    → Launches H s path native before (finish (set_flags flags) end)
finish-Launches flags (returned e, r) h = record {
  steps = h.steps;
  course = h.course;
  added = h.added;
}
finish-Launches flags (waiting, r) h = h
