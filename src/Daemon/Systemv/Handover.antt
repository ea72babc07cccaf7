-- ===== src/Daemon/Systemv/Handover.antt =====
-- The two halves of the library agree on the PID file: what the controller writes into the init.d
-- script (control/controller_systemv_linux.go) the daemon reads back (daemon_systemv_linux.go).
use cyberdaemon.Prelude.{
  ◌<◌, List, [], ◌∷◌, ◌++◌, ◌≡◌, refl, sym, ap, ◌∙◌, Bytes, Lacks, codes, arith, length,
  length-append, append_assoc, ok, none, All-append,
}
use cyberdaemon.Text.Trim.{trim, has_byte}
use cyberdaemon.Control.Systemv
use cyberdaemon.Text.Search.{has_prefix, trim_prefix, trim_prefix-append}
use cyberdaemon.Os.{Os, World}
use cyberdaemon.Control.{ControllerConfig, arguments_as_string}
use cyberdaemon.Control.Systemv.Template.{systemv_template}
use cyberdaemon.Control.Systemv.Template.Pieces.{
  Placeholder, service_name, short_description, description, exe_path, arguments, pid_file_path,
  run_as, Piece, text, hole, fill,
}
use cyberdaemon.Control.Systemv.Template.Header.{header, variables}
use cyberdaemon.Control.Systemv.{script_values, init_script}
use cyberdaemon.Control.Systemv.Script.{init_script-fill}
use cyberdaemon.Daemon.Systemv.Files.{limit_stream-short, read_limit}
use cyberdaemon.Daemon.Systemv.PidFile.{
  found, scan_lines, prefix_of_var, quotes, scan_result, pid_file_path_from_initd_script,
  default_pid_file_path,
}
use cyberdaemon.Daemon.Systemv.PidFile.Lines.{
  scan_lines-pass, scan_lines-pass_quoted, scan_lines-found_quoted, trim_quoted,
}

-- A template filled in, in front of a rest.
fill_onto : (Placeholder → Bytes) → List Piece → Bytes → Bytes
fill_onto value [] rest = rest
fill_onto value (text t ∷ pieces) rest = t ++ fill_onto value pieces rest
fill_onto value (hole p ∷ pieces) rest = value p ++ fill_onto value pieces rest

fill-append :
    (value : Placeholder → Bytes) (p q : List Piece)
    → fill value (p ++ q) ≡ fill_onto value p (fill value q)
unfolding fill fill_onto
fill-append value [] q = refl
fill-append value (text t ∷ p) q = ap (λ r. t ++ r) (fill-append value p q)
fill-append value (hole h ∷ p) q = ap (λ r. value h ++ r) (fill-append value p q)

-- A value that stands on one line, and leaves room on it.
abbrev pub FitsLine : Bytes → Type 0
FitsLine v = Lacks b'\n' v × (length v < 65000)

module _ (value : Placeholder → Bytes) where
  -- The head of the script holds no line that sets the PID file.
  scan-header :
      (rest : Bytes)
      → FitsLine (value service_name)
      → FitsLine (value short_description)
      → FitsLine (value description)
      → scan_lines prefix_of_var (fill_onto value header rest) [] ≡ scan_lines prefix_of_var rest []
  unfolding scan_lines header fill_onto has_prefix
  scan-header rest (n, ns) (s, ss) (d, ds) =
      scan_lines-pass prefix_of_var (value service_name) _ (codes "# Provides: ") n (omega arith)
        refl
      ∙ (scan_lines-pass prefix_of_var (value short_description) _ (codes "# Short-Description: ") s
            (omega arith) refl
          ∙ scan_lines-pass prefix_of_var (value description) _ (codes "# Description:       ") d
              (omega arith) refl)

  -- The settings hold it, behind lines that do not.
  scan-variables :
      (rest : Bytes)
      → FitsLine (value service_name)
      → FitsLine (value exe_path)
      → FitsLine (value arguments)
      → FitsLine (value run_as)
      → FitsLine (value pid_file_path)
      → scan_lines prefix_of_var (fill_onto value variables rest) []
        ≡ found (codes "PID_FILE_PATH='" ++ (value pid_file_path ++ (b'\'' ∷ [])))
  unfolding scan_lines variables fill_onto has_prefix
  scan-variables rest (n, ns) (e, es) (a, as_) (r, rs) (p, ps) =
      scan_lines-pass_quoted prefix_of_var (value service_name) _ (codes "PROGRAM_NAME='") n
        (omega arith) refl
      ∙ (scan_lines-pass_quoted prefix_of_var (value exe_path) _ (codes "PROGRAM_PATH='") e
            (omega arith) refl
          ∙ (scan_lines-pass_quoted prefix_of_var (value arguments) _ (codes "ARGUMENTS='") a
                (omega arith) refl
              ∙ (scan_lines-pass_quoted prefix_of_var (value run_as) _ (codes "RUN_AS='") r
                    (omega arith) refl
                  ∙ scan_lines-found_quoted prefix_of_var (value pid_file_path) _
                      (codes "PID_FILE_PATH='") p (omega arith) refl)))

-- A configured text that stands on one line, and leaves room on it.
abbrev pub FitsField : Bytes → Type 0
FitsField v = Lacks b'\n' v × (length v < 64000)

pid_path-split :
    (name : Bytes)
    → default_pid_file_path name
      ≡ b'/' ∷ ((codes "var/run/" ++ (name ++ codes ".pi")) ++ (b'd' ∷ []))
unfolding default_pid_file_path codes
pid_path-split name =
    ap (λ t. codes "/var/run/" ++ t) (sym (append_assoc name (codes ".pi") (b'd' ∷ [])))

-- The quotes that the script puts round the path are taken off again.
trim-pid_path :
    (name : Bytes)
    → trim (b'\'' ∷ (default_pid_file_path name ++ (b'\'' ∷ []))) quotes
      ≡ default_pid_file_path name
trim-pid_path name = rw (pid_path-split name) (
    trim_quoted b'/' b'd' (codes "var/run/" ++ (name ++ codes ".pi")) (unfold has_byte in refl)
      (unfold has_byte in refl))

trim-pid_line :
    (name : Bytes)
    → trim
        (trim_prefix
          (codes "PID_FILE_PATH='" ++ (default_pid_file_path name ++ (b'\'' ∷ [])))
          prefix_of_var)
        quotes
      ≡ default_pid_file_path name
unfolding codes
trim-pid_line name =
    ap (λ t. trim t quotes)
      (trim_prefix-append prefix_of_var (b'\'' ∷ (default_pid_file_path name ++ (b'\'' ∷ []))))
    ∙ trim-pid_path name

module _ (config : ControllerConfig) (id : FitsField config.daemon_id)
    (description_fits : FitsField config.description) (exe : FitsField config.exe_path)
    (args : FitsField (arguments_as_string config)) (user : FitsField config.run_as) where
  short_fits : FitsLine (config.daemon_id ++ codes " daemon.")
  unfolding codes
  short_fits = (
    All-append _ config.daemon_id (codes " daemon.") id.0 (omega arith),
    omega (arith, id.1, length-append {0} config.daemon_id (codes " daemon.")),
  )

  pid_fits : FitsLine (default_pid_file_path config.daemon_id)
  unfolding default_pid_file_path codes
  pid_fits = (
    All-append _ (codes "/var/run/") _ (omega arith)
        (All-append _ config.daemon_id (codes ".pid") id.0 (omega arith)),
    omega (arith, id.1, length-append {0} config.daemon_id (codes ".pid")),
  )

  scan_script :
      scan_lines prefix_of_var (init_script config) []
      ≡ found (codes "PID_FILE_PATH='" ++ (default_pid_file_path config.daemon_id ++ (b'\'' ∷ [])))
  unfolding systemv_template script_values default_pid_file_path Systemv.default_pid_file_path
  scan_script =
      ap (λ t. scan_lines prefix_of_var t [])
        (init_script-fill config
          ∙ (fill-append (script_values config) header _
              ∙ ap (fill_onto (script_values config) header)
                  (fill-append (script_values config) variables _)))
      ∙ (scan-header (script_values config) _ (id.0, omega (arith, id.1)) short_fits
            (description_fits.0, omega (arith, description_fits.1))
          ∙ scan-variables (script_values config) _ (id.0, omega (arith, id.1))
              (exe.0, omega (arith, exe.1)) (args.0, omega (arith, args.1))
              (user.0, omega (arith, user.1)) pid_fits)

  -- The daemon finds in the script of its controller the PID file path that the controller put
  -- there, which is the path that the daemon would fall back on. That holds for every configuration
  -- whose texts stand on one line each and leave room for what stands beside them, as long as the
  -- script as a whole stays within the daemon's read limit.
  pub pid_file_path-handover :
      (O : Os) (w : World O) (script_path : Bytes)
      → O.open_file w.state script_path
        ≡ ok (record { contents = init_script config; read_error = none })
      → length (init_script config) < read_limit
      → pid_file_path_from_initd_script O script_path w
        ≡ (ok (default_pid_file_path config.daemon_id), w)
  unfolding pid_file_path_from_initd_script
  pid_file_path-handover O w script_path h short =
      rw (h, limit_stream-short (init_script config) none short, scan_script, scan_result)
        (ap (λ (t : Bytes). (ok t, w)) (trim-pid_line config.daemon_id))
