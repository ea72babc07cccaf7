-- ===== src/Os/Laws.antt =====
-- What the program relies on of the operating system, as documented for `os` and `os/exec`.
use cyberdaemon.Prelude.{ℕ, false, List, ◌≡◌, none, some, Bytes}
use cyberdaemon.Prelude.Int.{pos}
use cyberdaemon.Os.{Os}

pub record IsLawful (O : Os) : Type 0 where
  -- After a successful write there is a file, and no directory, at the path.
  pub stat-write_file :
      (s : O.State) (p contents : Bytes) (perm : ℕ)
      → (O.write_file s p contents perm).1 ≡ none
      → O.stat (O.write_file s p contents perm).0 p ≡ some (record { is_dir = false })
  -- After a successful removal there is nothing at the path.
  pub stat-remove :
      (s : O.State) (p : Bytes) → (O.remove s p).1 ≡ none → O.stat (O.remove s p).0 p ≡ none
  -- A command that reports no error has exited with status 0.
  pub exit_code-success :
      (s : O.State) (exe : Bytes) (args : List Bytes)
      → (O.execute s exe args).1.failure ≡ none
      → (O.execute s exe args).1.exit_code ≡ pos 0

-- The commands of an executable leave a path alone.
abbrev pub Spares : Os → Bytes → Bytes → Type 0
Spares O exe p = (s : O.State) (args : List Bytes) → O.stat (O.execute s exe args).0 p ≡ O.stat s p
