-- ===== src/Daemon/Systemv/PidFile.antt =====
-- Where the PID file is: `pidFilePathFromInitdScript` and `DefaultPidFilePath` of
-- daemon_systemv_linux.go.
pub mod Lines
use cyberdaemon.Prelude.{
  ℕ, Bool, true, false, List, [], ◌∷◌, ◌++◌, Option, none, some, Bytes, codes, Result, ok, err,
  map_err, leb, ◌==◌, if◌then◌else◌, length,
}
use cyberdaemon.Text.Search.{has_prefix, trim_prefix}
use cyberdaemon.Text.Trim.{trim}
use cyberdaemon.Os.{Os, Stream, Action, lift, try, ◌>>=◌, open_file}
use cyberdaemon.Daemon.Systemv.Files.{limit_stream}

abbrev pub pid_file_path_var : Bytes
pid_file_path_var = codes "PID_FILE_PATH"

-- The lines of a `bufio.Scanner`: a carriage return at the end of a line is dropped, and a line of
-- 64 KiB stops the scan with an error. Text behind the last line feed is a line, unless it is empty.
abbrev pub max_line : ℕ
max_line = 65536

unfoldable pub drop_cr : Bytes → Bytes
drop_cr [] = []
drop_cr (c ∷ []) = if c == b'\r' then [] else c ∷ []
drop_cr (c ∷ d ∷ s) = c ∷ drop_cr (d ∷ s)

pub data Scan : Type 0 where
  found : Bytes → Scan
  too_long ended : Scan

-- What the loop does at the end of a line: stop with the line if it has the prefix.
unfoldable pub at_line : Bytes → Bytes → Scan → Scan
unfolding drop_cr
at_line prefix line later =
    if leb max_line (length line)
    then too_long
    else if has_prefix (drop_cr line) prefix
    then found (drop_cr line)
    else later

-- The scan of a text, of which a part of the current line has been read.
unfoldable pub scan_lines : Bytes → Bytes → Bytes → Scan
unfolding at_line
scan_lines prefix [] [] = ended
scan_lines prefix [] (b ∷ line) = at_line prefix (b ∷ line) ended
scan_lines prefix (c ∷ s) line =
    let next = scan_lines prefix s [] in
    let on = scan_lines prefix s (line ++ c ∷ []) in
    if c == b'\n' then at_line prefix line next else on

abbrev pub prefix_of_var : Bytes
prefix_of_var = pid_file_path_var ++ codes "="

abbrev pub quotes : Bytes
quotes = b'"' ∷ b'\'' ∷ []

-- The result of the scan of an opened file.
unfoldable pub scan_result : Scan → Option Bytes → Result Bytes
scan_result (found line) read_error = ok (trim (trim_prefix line prefix_of_var) quotes)
scan_result too_long read_error =
    err (codes "failed to scan init.d script - " ++ codes "bufio.Scanner: token too long")
scan_result ended (some e) = err (codes "failed to scan init.d script - " ++ e)
scan_result ended none =
    err (codes "failed to find pid file path ('" ++ (prefix_of_var ++ codes "') in init.d script"))

-- `DefaultPidFilePath`
unfoldable pub default_pid_file_path : Bytes → Bytes
default_pid_file_path service_name = codes "/var/run/" ++ (service_name ++ codes ".pid")

module _ (O : Os) where
  -- `pidFilePathFromInitdScript`
  unfoldable pub pid_file_path_from_initd_script : Bytes → Action O Bytes
  unfolding limit_stream scan_lines scan_result
  pid_file_path_from_initd_script script_path = do
    opened ← try (open_file O script_path)
    f ← lift (map_err (λ e. codes "failed to open init.d script for parsing - " ++ e) opened)
    let limited = limit_stream f
    lift (scan_result (scan_lines prefix_of_var limited.contents []) limited.read_error)
