-- ===== src/Control/Contract.antt =====
-- What a caller may expect of a `Controller`, whatever the system behind it, and what follows for a
-- caller that gives commands one after the other through `Execute`.
use cyberdaemon.Prelude.{
  Bool, true, false, not, ◌||◌, ◌&&◌, List, [], ◌∷◌, ◌≡◌, ◌↔◌, refl, sym, ◌∙◌, ap, subst, Bytes,
  codes, bytes_eq, eq_of_bytes_eq, Result, ok, err, if◌then◌else◌, Bool-cases, inl, inr, arith,
}
use cyberdaemon.Control.{
  Status, not_installed, Command, Controller, get_status, start_command, stop_command,
  install_command, uninstall_command, supported_commands, status_string, report, execute,
}
use cyberdaemon.Control.Commands.{contains, execute_unsupported, status_string-injective}

-- The daemon is or is not installed; `Status` says which, `Install` and `Uninstall` change it when
-- they succeed, and nothing else does.
pub record IsFaithful {W : Type 0} (c : Controller W) (installed : W → Bool) : Type 0 where
  pub status-says :
      (w : W) (s : Status) → (c.status w).0 ≡ ok s → (s ≡ not_installed) ↔ (installed w ≡ false)
  pub installed-status : (w : W) → installed (c.status w).1 ≡ installed w
  pub installed-start : (w : W) → installed (c.start w).1 ≡ installed w
  pub installed-stop : (w : W) → installed (c.stop w).1 ≡ installed w
  pub installed-install : (w : W) → (c.install w).0 ≡ ok tt → installed (c.install w).1 ≡ true
  pub installed-uninstall :
      (w : W) → (c.uninstall w).0 ≡ ok tt → installed (c.uninstall w).1 ≡ false

-- Whether the daemon is installed after a command, if it succeeds.
unfoldable pub installed_by : Bool → Command → Bool
installed_by before command =
    if bytes_eq command install_command
    then true
    else if bytes_eq command uninstall_command
    then false
    else before

unfoldable pub installed_by_all : Bool → List Command → Bool
unfolding installed_by
installed_by_all before [] = before
installed_by_all before (command ∷ commands) =
    installed_by_all (installed_by before command) commands

abbrev pub is_ok : Result Bytes → Bool
is_ok (ok out) = true
is_ok (err e) = false

unfoldable pub changes : Command → Bool
changes command = bytes_eq command install_command || bytes_eq command uninstall_command

module _ {W : Type 0} (c : Controller W) where
  -- The world after a list of commands.
  unfoldable pub replay : List Command → W → W
  replay [] w = w
  replay (command ∷ commands) w = replay commands (execute command c w).1

  -- Each `install` and `uninstall` of the list succeeds, where its turn comes.
  unfoldable pub all_succeed : List Command → W → Bool
  unfolding changes
  all_succeed [] w = true
  all_succeed (command ∷ commands) w =
      (not (changes command) || is_ok (execute command c w).0)
      && all_succeed commands (execute command c w).1

-- Every command is one of the five, or none of them.
by_command :
    (P : Command → Type 0)
    → P get_status
    → P start_command
    → P stop_command
    → P install_command
    → P uninstall_command
    → ((command : Command) → contains supported_commands command ≡ false → P command)
    → (command : Command) → P command
unfolding supported_commands
by_command P on_status on_start on_stop on_install on_uninstall otherwise command =
    elim (Bool-cases (bytes_eq command get_status)) [
      | inl e ↦ subst P (sym (eq_of_bytes_eq command get_status e)) on_status
      | inr n1 ↦ elim (Bool-cases (bytes_eq command start_command)) [
        | inl e ↦ subst P (sym (eq_of_bytes_eq command start_command e)) on_start
        | inr n2 ↦ elim (Bool-cases (bytes_eq command stop_command)) [
          | inl e ↦ subst P (sym (eq_of_bytes_eq command stop_command e)) on_stop
          | inr n3 ↦ elim (Bool-cases (bytes_eq command install_command)) [
            | inl e ↦ subst P (sym (eq_of_bytes_eq command install_command e)) on_install
            | inr n4 ↦ elim (Bool-cases (bytes_eq command uninstall_command)) [
              | inl e ↦ subst P (sym (eq_of_bytes_eq command uninstall_command e)) on_uninstall
              | inr n5 ↦ otherwise command (ground arith)
            ]
          ]
        ]
      ]
    ]

report-ok :
    {W : Type 0} (doing : Bytes) (r : Result (Unit {0})) (w : W)
    → is_ok (report doing (λ (_ : Unit {0}). []) (r, w)).0 ≡ true
    → r ≡ ok tt
unfolding report
report-ok doing (ok u) w h = refl
report-ok doing (err e) w h = cc

other_command :
    (b : Bool) (command : Command)
    → contains supported_commands command ≡ false
    → installed_by b command ≡ b
unfolding installed_by supported_commands
other_command b command h = ground arith

module _ {W : Type 0} (c : Controller W) (installed : W → Bool)
    (faithful : IsFaithful c installed) where
  -- One command that succeeds, or that is neither `install` nor `uninstall`.
  abbrev Tracks : Command → Type 0
  Tracks command =
      (w : W)
      → not (changes command) || is_ok (execute command c w).0 ≡ true
      → installed (execute command c w).1 ≡ installed_by (installed w) command

  execute-Tracks : (command : Command) → Tracks command
  unfolding execute installed_by changes report codes bytes_eq report-ok
  execute-Tracks =
      by_command Tracks (λ w h. faithful.installed-status w) (λ w h. faithful.installed-start w)
        (λ w h. faithful.installed-stop w)
        (λ w h.
          faithful.installed-install w
            (report-ok (codes "failed to install daemon") (c.install w).0 (c.install w).1 h))
        (λ w h.
          faithful.installed-uninstall w
            (report-ok (codes "failed to uninstall daemon") (c.uninstall w).0 (c.uninstall w).1 h))
        (λ command other w h.
          ap (λ (end : Result Bytes × W). installed end.1) (execute_unsupported command c w other)
          ∙ sym (other_command (installed w) command other))

  -- The contract, for a list of commands.
  pub installed-replay :
      (commands : List Command) (w : W)
      → all_succeed c commands w ≡ true
      → installed (replay c commands w) ≡ installed_by_all (installed w) commands
  unfolding all_succeed replay installed_by_all
  installed-replay [] w h = refl
  installed-replay (command ∷ commands) w h =
      let one : not (changes command) || is_ok (execute command c w).0 ≡ true = ground arith in
      let rest : all_succeed c commands (execute command c w).1 ≡ true = ground arith in
      installed-replay commands (execute command c w).1 rest
      ∙ ap (λ b. installed_by_all b commands) (execute-Tracks command w one)

  reported :
      (r : Result Status) (doing : Bytes) (w : W) (out : Bytes)
      → (report doing status_string (r, w)).0 ≡ ok out
      → (s : Status) × ((r ≡ ok s) × (out ≡ status_string s))
  unfolding report
  reported (ok s) doing w out h = (s, (refl, cc))
  reported (err e) doing w out h = cc

  status_printed :
      (w : W) (out : Bytes)
      → (execute get_status c w).0 ≡ ok out
      → (s : Status) × (((c.status w).0 ≡ ok s) × (out ≡ status_string s))
  unfolding execute codes bytes_eq reported
  status_printed w out h =
      reported (c.status w).0 (codes "failed to get daemon status") (c.status w).1 out h

  -- After any commands of which every `install` and `uninstall` succeeds, where `status` prints a
  -- status at all, it prints `not_installed` exactly if the last of these two is an `uninstall`,
  -- or there is none of them and the daemon was not installed before. The controller is any that
  -- keeps the contract.
  pub status-replay :
      (commands : List Command) (w : W) (out : Bytes)
      → all_succeed c commands w ≡ true
      → (execute get_status c (replay c commands w)).0 ≡ ok out
      → (out ≡ codes "not_installed") ↔ (installed_by_all (installed w) commands ≡ false)
  unfolding status_string
  status-replay commands w out h printed =
      let (s, (answered, text)) = status_printed (replay c commands w) out printed in
      let (there, back) = faithful.status-says (replay c commands w) s answered in
      let tracked = installed-replay commands w h in
      (
        λ e. sym tracked ∙ there (status_string-injective s not_installed (sym text ∙ e)),
        λ gone. text ∙ ap status_string (back (tracked ∙ gone)),
      )
