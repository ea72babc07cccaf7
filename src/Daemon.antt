-- ===== src/Daemon.antt =====
-- The root package, which turns an application into a daemon. `Host` is what a daemonizer uses of
-- the process that it runs in, with the application itself as a parameter: `Start` and `Stop` are
-- methods of the caller's type. `log` is the standard logger of the package log.
pub mod Run
pub mod Systemv
pub mod Windows
pub mod WindowsRun
use cyberdaemon.Prelude.{
  ℕ, Bool, true, false, List, [], ◌∷◌, Option, none, some, Bytes, Result, if◌then◌else◌,
}
use cyberdaemon.Prelude.Int.{ℤ}
use cyberdaemon.Os.{Os, World}

pub record Host : Type 1 where
  pub os : Os
  -- `os.Getenv(key)`, which is empty where the variable is unset
  pub getenv : os.State → Bytes → Bytes
  -- `os.Executable()`
  pub executable : os.State → Result Bytes
  -- `os.Args[1:]`
  pub arguments : List Bytes
  -- `os.OpenFile(path, os.O_CREATE|os.O_TRUNC|os.O_WRONLY, perm)`, with a descriptor as result
  pub create_file : os.State → Bytes → ℕ → os.State × Result ℕ
  -- `Start` of an `exec.Cmd` with these arguments, with standard error passed on or not, and with
  -- one extra file; the result is the process
  pub start_process : os.State → Bytes → List Bytes → Bool → ℕ → os.State × Result ℤ
  -- `WriteString` on a descriptor
  pub write_string : os.State → ℕ → Bytes → os.State × Option Bytes
  -- whether `os.NewFile` takes a descriptor for a file
  pub is_descriptor : os.State → ℕ → Bool
  -- `Seek(0, 0)`, `Truncate(0)` and `Close()` on a descriptor, whose errors are not looked at
  pub seek_start : os.State → ℕ → os.State
  pub truncate_file : os.State → ℕ → os.State
  pub close_file : os.State → ℕ → os.State
  -- `application.Start()` and `application.Stop()`
  pub start_application : os.State → os.State × Option Bytes
  pub stop_application : os.State → os.State × Option Bytes
  -- The state in which an interrupt or a termination signal is received, if one ever is.
  pub await_signal : os.State → Option os.State

-- What a daemonizer does, apart from its logger: a process is started with an executable, arguments,
-- standard error or not, and a descriptor; a text is written to a descriptor, with an error or not.
pub data Step : Type 0 where
  started_application stopped_application received_signal : Step
  created : Bytes → Step
  launched : Bytes → List Bytes → Bool → ℕ → Step
  wrote : ℕ → Bytes → Option Bytes → Step
  rewound cut_off closed_file : ℕ → Step

-- The standard logger: its flags, and whether it writes to standard error.
pub record Runtime (H : Host) : Type 0 where
  pub world : World H.os
  pub log_flags : ℤ
  pub log_to_stderr : Bool
  pub steps : List Step

-- How `RunUntilExit` ends: it returns, or it waits for ever.
pub data Exit : Type 0 where
  returned : Option Bytes → Exit
  waiting : Exit

module _ {H : Host} where
  abbrev pub set_flags : ℤ → Runtime H → Runtime H
  set_flags flags r = record {
    world = r.world;
    log_flags = flags;
    log_to_stderr = r.log_to_stderr;
    steps = r.steps;
  }

  -- `log.SetOutput(os.Stderr)`
  abbrev pub set_output : Runtime H → Runtime H
  set_output r = record {
    world = r.world;
    log_flags = r.log_flags;
    log_to_stderr = true;
    steps = r.steps;
  }

  -- A step that leaves the system in some state.
  abbrev pub after_step : Step → H.os.State → Runtime H → Runtime H
  after_step step s r = record {
    world = record { state = s; journal = r.world.journal };
    log_flags = r.log_flags;
    log_to_stderr = r.log_to_stderr;
    steps = step ∷ r.steps;
  }

  abbrev pub in_world : World H.os → Runtime H → Runtime H
  in_world w r = record {
    world = w;
    log_flags = r.log_flags;
    log_to_stderr = r.log_to_stderr;
    steps = r.steps;
  }

-- The body of `RunUntilExit`, and a part of it.
abbrev pub Program : Host → Type 0
Program H = Runtime H → Exit × Runtime H

-- `defer`: what is to be done when the body returns, on every branch. A body that waits for ever
-- never comes to it.
abbrev pub finish : {R : Type 0} → (R → R) → Exit × R → Exit × R
finish deferred (returned e, r) = (returned e, deferred r)
finish deferred (waiting, r) = (waiting, r)
