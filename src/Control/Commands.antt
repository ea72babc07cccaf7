-- ===== src/Control/Commands.antt =====
-- Which commands `Execute` carries out, and which it refuses.
use cyberdaemon.Prelude.{
  Bool, true, false, ◌||◌, List, [], ◌∷◌, ◌++◌, ◌≡◌, refl, Bytes, codes, bytes_eq, bytes_eq_refl,
  ok, err, Result, arith, ap, ◌↔◌, Option, some, none, and_then, map_err, if◌then◌else◌, Bool-cases,
  inl, inr,
}
use cyberdaemon.Control.{
  Status, unknown, running, stopped, stopped_dead, starting, stopping, resuming, pausing, paused,
  not_installed, Command, Controller, get_status, supported_commands, status_string, report,
  execute,
}
use cyberdaemon.Text.Search.{has_prefix, has_prefix-append_left}

abbrev pub contains : List Bytes → Bytes → Bool
contains [] s = false
contains (t ∷ ts) s = bytes_eq s t || contains ts s

-- The status that a text stands for.
unfoldable pub parse_status : Bytes → Option Status
unfolding bytes_eq codes
parse_status s =
    if bytes_eq s (codes "unknown")
    then some unknown
    else if bytes_eq s (codes "running")
    then some running
    else if bytes_eq s (codes "stopped")
    then some stopped
    else if bytes_eq s (codes "stopped_dead")
    then some stopped_dead
    else if bytes_eq s (codes "starting")
    then some starting
    else if bytes_eq s (codes "stopping")
    then some stopping
    else if bytes_eq s (codes "resuming")
    then some resuming
    else if bytes_eq s (codes "pausing")
    then some pausing
    else if bytes_eq s (codes "paused")
    then some paused
    else if bytes_eq s (codes "not_installed")
    then some not_installed
    else none

-- The texts of the statuses are all different: each is read back.
pub parse_status-status_string : (s : Status) → parse_status (status_string s) ≡ some s
unfolding parse_status status_string
parse_status-status_string unknown = refl
parse_status-status_string _ = refl

pub status_string-injective : (s t : Status) → status_string s ≡ status_string t → s ≡ t
status_string-injective s t h =
    cc (parse_status-status_string s, parse_status-status_string t, ap parse_status h)

-- The command `status` prints a status exactly when the controller reports that status.
pub execute-status_iff :
    {W : Type 0} (c : Controller W) (w : W) (s : Status)
    → ((execute get_status c w).0 ≡ ok (status_string s)) ↔ ((c.status w).0 ≡ ok s)
unfolding execute
execute-status_iff c w s =
    rw (bytes_eq_refl get_status) (λ h. there (c.status w).0 h, λ h. ground arith)
  where
    there :
        (r : Result Status)
        → and_then
            (map_err (λ e. codes "failed to get daemon status" ++ codes " - " ++ e) r)
            (λ a. ok (status_string a))
          ≡ ok (status_string s)
        → r ≡ ok s
    there (ok t) h = ap ok (status_string-injective t s (ground arith))
    there (err e) h = cc

report_failed :
    {W A : Type 0} (doing : Bytes) (output : A → Bytes) (m : Result A × W) (e : Bytes)
    → has_prefix doing (codes "failed to ") ≡ true
    → (report doing output m).0 ≡ err e
    → has_prefix e (codes "failed to ") ≡ true
unfolding report
report_failed doing output (ok a, w) e p h = cc
report_failed doing output (err cause, w) e p h =
    let q = has_prefix-append_left doing (codes " - ") _ p in
    let r = has_prefix-append_left (doing ++ codes " - ") cause _ q in ground arith

abbrev pub refusal : Command → Bytes
refusal command = codes "unknown daemon command '" ++ command ++ codes "'"

pub execute_unsupported :
    {W : Type 0} (command : Command) (c : Controller W) (w : W)
    → contains supported_commands command ≡ false
    → execute command c w ≡ (err (refusal command), w)
unfolding execute supported_commands
execute_unsupported command c w h = ground arith

execute_supported :
    {W : Type 0} (command : Command) (c : Controller W) (w : W) {e : Bytes}
    → contains supported_commands command ≡ true
    → (execute command c w).0 ≡ err e
    → has_prefix e (codes "failed to ") ≡ true
unfolding execute supported_commands
execute_supported command c w {e} h k = ground (
  arith,
  report_failed (codes "failed to get daemon status") status_string (c.status w) e
      (unfold has_prefix codes in refl),
  report_failed (codes "failed to start daemon") (λ (_ : Unit {0}). []) (c.start w) e
      (unfold has_prefix codes in refl),
  report_failed (codes "failed to stop daemon") (λ (_ : Unit {0}). []) (c.stop w) e
      (unfold has_prefix codes in refl),
  report_failed (codes "failed to install daemon") (λ (_ : Unit {0}). []) (c.install w) e
      (unfold has_prefix codes in refl),
  report_failed (codes "failed to uninstall daemon") (λ (_ : Unit {0}). []) (c.uninstall w) e
      (unfold has_prefix codes in refl),
)

refusal_prefix : (command : Command) → has_prefix (refusal command) (codes "failed to ") ≡ false
unfolding has_prefix codes
refusal_prefix command = refl

-- A command is refused as unknown exactly if it is not one of the supported ones, so that no error
-- of a supported command can be taken for the refusal, whatever the controller's error says.
pub execute-refused_iff :
    {W : Type 0} (command : Command) (c : Controller W) (w : W)
    → ((execute command c w).0 ≡ err (codes "unknown daemon command '" ++ command ++ codes "'"))
      ↔ (contains supported_commands command ≡ false)
execute-refused_iff command c w = (
  λ h. elim (Bool-cases (contains supported_commands command)) [
    | inl listed ↦ cc (execute_supported command c w listed h, refusal_prefix command)
    | inr other ↦ other
  ],
  λ other. ap (λ t. t.0) (execute_unsupported command c w other),
)
