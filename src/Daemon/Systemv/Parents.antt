-- ===== src/Daemon/Systemv/Parents.antt =====
-- Whether init.d started the process: the walk up the parents in daemon_systemv_linux.go, over the
-- files of /proc. The parameter is the text of the error of `strconv.ParseUint` for a text.
pub mod Stat
pub mod Walk
pub mod Ancestors
use cyberdaemon.Prelude.{
  ℕ, zero, suc, ◌+◌, Bool, true, false, not, ◌&&◌, List, [], ◌∷◌, ◌++◌, Option, none, some, Bytes,
  codes, leb, if◌then◌else◌, get_elem?, Result, ok, err, map_err,
}
use cyberdaemon.Prelude.Int.{ℤ, pos, int_eq, int_of_uint64}
use cyberdaemon.Text.Search.{has_prefix}
use cyberdaemon.Text.Split.{split}
use cyberdaemon.Text.Decimal.{decimal_int, parse_uint}
use cyberdaemon.Os.{Os, Action, pure, raise, lift, try, ◌>>=◌, ◌>>◌, parent_pid}
use cyberdaemon.Daemon.Systemv.Files.{tiny_read}

abbrev pub initd_dir : Bytes
initd_dir = codes "/etc/init.d/"

unfoldable pub stat_path : ℤ → Bytes
stat_path pid = codes "/proc/" ++ (decimal_int pid ++ codes "/stat")

unfoldable pub cmdline_path : ℤ → Bytes
cmdline_path pid = codes "/proc/" ++ (decimal_int pid ++ codes "/cmdline")

-- The loop over the arguments, of which only the first four are looked at.
unfoldable pub script_argument : ℕ → List Bytes → Option Bytes
script_argument i [] = none
script_argument i (a ∷ rest) =
    let later = script_argument (i + 1) rest in
    if leb i 3 && has_prefix a initd_dir then some a else later

module _ (num_error : Bytes → Bytes) where
  unfoldable pub convert_pid : ℤ → Bytes → Result ℤ
  convert_pid pid s = elim (parse_uint s) [
    | some n ↦ ok (int_of_uint64 n)
    | none ↦ err (
        codes "failed to convert parent pid for pid "
        ++ (decimal_int pid ++ (codes " - " ++ num_error s)))
  ]

  -- The parent process in the contents of a stat file: the fourth of the parts between spaces.
  unfoldable pub parent_in_stat : ℤ → Bytes → Result ℤ
  unfolding convert_pid
  parent_in_stat pid contents = elim (get_elem? (split contents b' ') 3) [
    | some s ↦ convert_pid pid s
    | none ↦ err (
        codes "stat file for pid "
        ++ (decimal_int pid ++ codes " has too few elements to get parent pid"))
  ]

  module _ (O : Os) where
    -- `manualParentPid`
    unfoldable pub manual_parent_pid : ℤ → Action O ℤ
    unfolding parent_in_stat
    manual_parent_pid pid = do
      contents ← tiny_read O (stat_path pid)
      lift (parent_in_stat pid contents)

    -- `isPidInitd`; the path is there if the process is init.d.
    unfoldable pub is_pid_initd : ℤ → Action O (Option Bytes)
    unfolding script_argument
    is_pid_initd pid = do
      read ← try (tiny_read O (cmdline_path pid))
      contents ← lift (
          map_err
            (λ e.
              codes "failed to read cmdline for process "
              ++ (decimal_int pid ++ (codes " - " ++ e)))
            read)
      pure (script_argument 0 (split contents 0))

    -- The rounds of the loop that are left; only the first looks at the process that it is given,
    -- and each other at the parent of that process, if there is one.
    unfoldable pub search_parents : ℕ → Bool → ℤ → Action O (Option Bytes)
    search_parents zero first pid = pure none
    search_parents (suc left) first pid = do
      current ← if first then pure pid else manual_parent_pid pid
      let go_on = search_parents left false current
      let look = is_pid_initd current >>= λ found. elim found [
        | some path ↦ pure (some path)
        | none ↦ go_on
      ]
      if not first && int_eq current (pos 0) then pure none else look

    -- `isInitdOurParent`
    unfoldable pub is_initd_our_parent : Action O (Option Bytes)
    unfolding search_parents
    is_initd_our_parent = do pid ← parent_pid O; search_parents 5 true pid
