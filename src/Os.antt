-- ===== src/Os.antt =====
-- The operating system below the program: the calls that Go's `os`, `os/exec`, `os/user` and
-- `io/ioutil` make, as an interface over an unknown state. `World` adds to that state a journal of
-- the calls that change something, the latest first, and `Action` threads it through Go code that
-- may return an error.
pub mod Laws
pub mod Plans
pub mod Simulated
use cyberdaemon.Prelude.{
  ℕ, Bool, false, not, List, [], ◌∷◌, ◌≡◌, refl, Option, none, some, Bytes, Result, ok, err, Effect,
}
use cyberdaemon.Prelude.Int.{ℤ}
pub use cyberdaemon.Prelude.{pure, raise, lift, try, ignore_error, check, continue, ◌>>=◌, ◌>>◌}

-- What the program reads of an `os.FileInfo`.
pub record FileInfo : Type 0 where
  pub is_dir : Bool

pub record User : Type 0 where
  pub username : Bytes
  pub home_dir : Bytes

-- What `CombinedOutput` and `ProcessState.ExitCode` return. The code is -1 if the process did not
-- start, or was ended by a signal.
pub record ExecResult : Type 0 where
  pub output : Bytes
  pub exit_code : ℤ
  pub failure : Option Bytes

-- An open file: the bytes that reading it gives, and the error that ends them, if it is not the
-- end of the file.
pub record Stream : Type 0 where
  pub contents : Bytes
  pub read_error : Option Bytes

pub record Os : Type 1 where
  pub State : Type 0
  -- `os.Stat`; none stands for an error
  pub stat : State → Bytes → Option FileInfo
  -- `ioutil.WriteFile(path, contents, perm)`
  pub write_file : State → Bytes → Bytes → ℕ → State × Option Bytes
  -- `os.Remove(path)`
  pub remove : State → Bytes → State × Option Bytes
  -- `exec.Command(exe, args...).CombinedOutput()`
  pub execute : State → Bytes → List Bytes → State × ExecResult
  -- `user.Current()`
  pub current_user : State → Result User
  -- `os.Open(path)`
  pub open_file : State → Bytes → Result Stream
  -- `os.Getppid()`
  pub parent_pid : State → ℤ

pub data Event : Type 0 where
  wrote : Bytes → Bytes → ℕ → Event
  removed : Bytes → Event
  ran : Bytes → List Bytes → Event

pub record World (O : Os) : Type 0 where
  pub state : O.State
  pub journal : List Event

abbrev pub Action : Os → Type 0 → Type 0
Action O A = Effect (World O) A

module _ (O : Os) where
  abbrev pub stat : Bytes → Action O (Option FileInfo)
  stat p w = (ok (O.stat w.state p), w)

  abbrev pub write_file : Bytes → Bytes → ℕ → Action O (Option Bytes)
  write_file p contents perm w =
      let (s, failure) = O.write_file w.state p contents perm in
      (ok failure, record { state = s; journal = wrote p contents perm ∷ w.journal })

  abbrev pub remove : Bytes → Action O (Option Bytes)
  remove p w =
      let (s, failure) = O.remove w.state p in
      (ok failure, record { state = s; journal = removed p ∷ w.journal })

  abbrev pub execute : Bytes → List Bytes → Action O ExecResult
  execute exe args w =
      let (s, result) = O.execute w.state exe args in
      (ok result, record { state = s; journal = ran exe args ∷ w.journal })

  abbrev pub open_file : Bytes → Action O Stream
  open_file p w = (O.open_file w.state p, w)

  abbrev pub parent_pid : Action O ℤ
  parent_pid w = (ok (O.parent_pid w.state), w)

  abbrev pub current_user : Action O User
  current_user w = (O.current_user w.state, w)

-- `info, err := os.Stat(p); err == nil && !info.IsDir()`
abbrev pub is_file : Option FileInfo → Bool
is_file none = false
is_file (some info) = not info.is_dir
