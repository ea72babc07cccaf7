-- ===== src/Os/Simulated.antt =====
-- A small system to evaluate the program on: a list of files with their contents, commands that
-- answer as a table says, and the process that started the program.
use cyberdaemon.Prelude.{
  ℕ, false, List, [], ◌∷◌, ◌≡◌, refl, Option, none, some, Bytes, codes, bytes_eq, bytes_eq_refl, ok,
  err, Result, if◌then◌else◌, arith,
}
use cyberdaemon.Prelude.Int.{ℤ, pos}
use cyberdaemon.Os.{Os, FileInfo, ExecResult, Stream}
use cyberdaemon.Os.Laws.{IsLawful, Spares}

-- The result of each executable by its arguments.
abbrev pub Commands : Type 0
Commands = Bytes → List Bytes → ExecResult

abbrev pub Files : Type 0
Files = List (Bytes × Bytes)

abbrev pub succeeds : Bytes → ExecResult
succeeds output = record { output = output; exit_code = pos 0; failure = none }

abbrev pub fails : ℕ → ExecResult
fails code = record { output = []; exit_code = pos code; failure = some (codes "exit status") }

abbrev pub erase : Bytes → Files → Files
erase p [] = []
erase p ((q, t) ∷ files) = let rest = erase p files in if bytes_eq p q then rest else (q, t) ∷ rest

abbrev pub stat_of : Files → Bytes → Option FileInfo
stat_of [] p = none
stat_of ((q, t) ∷ files) p =
    if bytes_eq p q then some (record { is_dir = false }) else stat_of files p

abbrev pub open_of : Files → Bytes → Result Stream
open_of [] p = err (codes "no such file or directory")
open_of ((q, t) ∷ files) p =
    if bytes_eq p q then ok (record { contents = t; read_error = none }) else open_of files p

stat_of-erase : (p : Bytes) (files : Files) → stat_of (erase p files) p ≡ none
stat_of-erase p [] = refl
stat_of-erase p ((q, t) ∷ files) = ground (arith, stat_of-erase p files)

abbrev pub simulated : Commands → ℤ → Os
simulated commands parent = record {
  State = Files;
  stat = stat_of;
  write_file = λ files p contents perm. ((p, contents) ∷ files, none);
  remove = λ files p. (erase p files, none);
  execute = λ files exe args. (files, commands exe args);
  current_user = λ files. ok (record { username = codes "dude"; home_dir = codes "/home/dude" });
  open_file = open_of;
  parent_pid = λ files. parent;
}

pub simulated-Spares :
    (commands : Commands) (parent : ℤ) (exe p : Bytes) → Spares (simulated commands parent) exe p
simulated-Spares commands parent exe p s args = refl

-- The simulated system keeps the laws if commands that report no error exit with 0.
pub simulated-IsLawful :
    (commands : Commands) (parent : ℤ)
    → ((exe : Bytes) (args : List Bytes)
        → (commands exe args).failure ≡ none
        → (commands exe args).exit_code ≡ pos 0)
    → IsLawful (simulated commands parent)
simulated-IsLawful commands parent exits = record {
  stat-write_file = λ s p contents perm h. ground (arith, bytes_eq_refl p);
  stat-remove = λ s p h. stat_of-erase p s;
  exit_code-success = λ s exe args h. exits exe args h;
}
