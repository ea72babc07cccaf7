-- ===== src/Tests/Daemons.antt =====
-- The daemon's side.
use cyberdaemon.Prelude.{
  ℕ, ◌<◌, true, false, [], ◌∷◌, ◌++◌, ◌≡◌, refl, none, some, Bytes, codes, bytes_eq, ok, err,
  Lacks-of_lacks, lacks, leb, arith, inr, length,
}
use cyberdaemon.Prelude.Int.{ℤ, pos, int_of_uint64}
use cyberdaemon.Text.Search.{has_prefix}
use cyberdaemon.Text.Split.{split}
use cyberdaemon.Text.Decimal.{decimal, decimal_int, parse_uint}
use cyberdaemon.Os.{World}
use cyberdaemon.Control.{arguments_as_string}
use cyberdaemon.Text.FilePath.{join_path}
use cyberdaemon.Control.Systemv
use cyberdaemon.Control.Systemv.{init_script, script_values}
use cyberdaemon.Control.Systemv.Script.{init_script-fill}
use cyberdaemon.Control.Systemv.Template.{systemv_template}
use cyberdaemon.Control.Systemv.Template.Pieces.{fill}
use cyberdaemon.Daemon.Systemv.Files.{read_limit, tiny_read}
use cyberdaemon.Daemon.Systemv.Parents.{
  initd_dir, is_initd_our_parent, manual_parent_pid, is_pid_initd, stat_path, cmdline_path,
}
use cyberdaemon.Daemon.Systemv.Parents.Stat.{
  stat_contents, manual_parent_pid-stat, manual_parent_pid_of_spaced_name,
}
use cyberdaemon.Daemon.Systemv.Parents.Ancestors.{
  initd_of, parent_of, is_initd_our_parent_sound, is_initd_our_parent_complete,
}
use cyberdaemon.Daemon.Systemv.Parents.Walk.{Ancestor, self, up}
use cyberdaemon.Daemon.Systemv.PidFile.{default_pid_file_path, pid_file_path_from_initd_script}
use cyberdaemon.Daemon.Systemv.Handover.{FitsField, pid_file_path-handover}
use cyberdaemon.Tests.Fixtures.{config, calm_os}

abbrev pub num_error : Bytes → Bytes
num_error s = codes "strconv.ParseUint: invalid syntax"

-- The script runs as process 5, which started the shell 7, which started this program.
abbrev pub script : Bytes
script = codes "/etc/init.d/fw"

abbrev pub below_initd : World calm_os
below_initd = record {
  state =
      (codes "/proc/7/cmdline", codes "/bin/sh")
      ∷ (codes "/proc/7/stat", codes "7 (sh) S 5 7 7 0")
      ∷ (codes "/proc/5/cmdline", codes "/bin/sh" ++ (0 ∷ (script ++ (0 ∷ codes "start"))))
      ∷ [];
  journal = [];
}

pub finds_initd : (is_initd_our_parent num_error calm_os below_initd).0 ≡ ok (some script)
unfolding is_initd_our_parent is_pid_initd manual_parent_pid tiny_read split has_prefix decimal_int
    parse_uint codes bytes_eq stat_path cmdline_path int_of_uint64
finds_initd = refl

is_initd_our_parent_sound_example :
    (has_prefix script initd_dir ≡ true)
    × ((n : ℕ) × (q : ℤ) × (n < 5)
        × Ancestor
            (initd_of num_error calm_os below_initd)
            (parent_of num_error calm_os below_initd)
            n
            (pos 7)
            q
        × (initd_of num_error calm_os below_initd q ≡ ok (some script)))
is_initd_our_parent_sound_example =
    is_initd_our_parent_sound num_error calm_os below_initd script finds_initd

-- No process above this one is a script.
abbrev pub below_shells : World calm_os
below_shells = record {
  state =
      (codes "/proc/7/cmdline", codes "/bin/sh")
      ∷ (codes "/proc/7/stat", codes "7 (sh) S 1 7 7 0")
      ∷ (codes "/proc/1/cmdline", codes "/sbin/init")
      ∷ (codes "/proc/1/stat", codes "1 (init) S 0 1 1 0")
      ∷ [];
  journal = [];
}

pub finds_none : (is_initd_our_parent num_error calm_os below_shells).0 ≡ ok none
unfolding is_initd_our_parent is_pid_initd manual_parent_pid tiny_read split has_prefix decimal_int
    parse_uint codes bytes_eq stat_path cmdline_path int_of_uint64
finds_none = refl

parent_of_seven : parent_of num_error calm_os below_shells (pos 7) ≡ ok (pos 1)
unfolding manual_parent_pid tiny_read split decimal_int parse_uint codes bytes_eq stat_path
    int_of_uint64
parent_of_seven = refl

is_initd_our_parent_complete_example : initd_of num_error calm_os below_shells (pos 1) ≡ ok none
is_initd_our_parent_complete_example =
    is_initd_our_parent_complete num_error calm_os below_shells 1 (pos 1) finds_none (omega arith)
      (up parent_of_seven refl self)

abbrev with_stat : Bytes → World calm_os
with_stat contents = record { state = (codes "/proc/7/stat", contents) ∷ []; journal = [] }

abbrev plain_stat : Bytes
plain_stat = stat_contents 7 (codes "sh") (codes "S") 5 (codes "7 7 0")

manual_parent_pid-stat_example :
    manual_parent_pid num_error calm_os (pos 7) (with_stat plain_stat)
    ≡ (ok (pos 5), with_stat plain_stat)
unfolding stat_path decimal_int decimal codes bytes_eq int_of_uint64
manual_parent_pid-stat_example =
    manual_parent_pid-stat num_error calm_os (pos 7) 7 (codes "sh") (codes "S") 5 (codes "7 7 0")
      (with_stat plain_stat) refl (omega arith) (omega arith) (omega arith) (omega arith)

abbrev spaced_stat : Bytes
spaced_stat = stat_contents 7 (codes "my sh") (codes "S") 5 (codes "7 7 0")

manual_parent_pid_of_spaced_name_example :
    manual_parent_pid num_error calm_os (pos 7) (with_stat spaced_stat) ≡ (
      err (
          codes "failed to convert parent pid for pid "
          ++ (codes "7" ++ (codes " - " ++ codes "strconv.ParseUint: invalid syntax"))),
      with_stat spaced_stat,
    )
unfolding stat_path decimal_int decimal codes bytes_eq
manual_parent_pid_of_spaced_name_example =
    manual_parent_pid_of_spaced_name num_error calm_os (pos 7) 7 (codes "my") (codes "sh") [] b'S' 5
      (codes "7 7 0") (with_stat spaced_stat) refl (omega arith) (omega arith) (omega arith)
      (omega arith) (inr (omega arith))

abbrev installed : World calm_os
installed = record { state = (script, init_script config) ∷ []; journal = [] }

pub script_length : length (init_script config) < read_limit
unfolding fill systemv_template script_values arguments_as_string default_pid_file_path codes
    Systemv.default_pid_file_path join_path
script_length = rw (init_script-fill config) (omega arith)

pub value_fits : (v : Bytes) → lacks b'\n' v ≡ true → leb 64000 (length v) ≡ false → FitsField v
value_fits v h short = (Lacks-of_lacks b'\n' v h, ground arith)

pid_file_path-handover_example :
    pid_file_path_from_initd_script calm_os script installed
    ≡ (ok (default_pid_file_path (codes "fw")), installed)
unfolding codes bytes_eq lacks arguments_as_string
pid_file_path-handover_example =
    pid_file_path-handover config (value_fits config.daemon_id refl refl)
      (value_fits config.description refl refl) (value_fits config.exe_path refl refl)
      (value_fits (arguments_as_string config) refl refl) (value_fits config.run_as refl refl)
      calm_os installed script refl script_length
