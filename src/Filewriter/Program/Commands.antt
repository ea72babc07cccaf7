-- ===== src/Filewriter/Program/Commands.antt =====
-- What a user of the example sees who installs or uninstalls it and then asks for its status.
use cyberdaemon.Prelude.{
  Bool, true, false, [], ◌∷◌, ◌≡◌, ◌↔◌, refl, sym, ◌∙◌, ap, subst, Bytes, codes, bytes_eq,
  eq_of_bytes_eq, Result, ok, err, Bool-cases, inl, inr, arith,
}
use cyberdaemon.Control.{
  Command, Controller, get_status, install_command, uninstall_command, execute, is_empty,
}
use cyberdaemon.Control.Contract.{
  IsFaithful, changes, installed_by, installed_by_all, replay, all_succeed, is_ok, installed-replay,
  status-replay,
}
use cyberdaemon.Filewriter.Program.{
  Setting, Ending, fatal, logged, finished, log_output, end_command, execute_with, run_command,
  main, example_config,
}

module _ {W : Type 0} (S : Setting W) (c : Controller W) (exe_path : Bytes)
    (found : (w : W) → S.executable w ≡ ok exe_path)
    (made : (w : W) → (S.new_controller (example_config S.goos exe_path) w).0 ≡ ok c) where
  -- The world in which `NewController` leaves the system.
  after_choice : W → W
  after_choice w = (S.new_controller (example_config S.goos exe_path) w).1

  main_command :
      (command : Command) (w : W)
      → is_empty command ≡ false
      → main S false command w ≡ end_command (execute command c (after_choice w))
  unfolding main run_command execute_with after_choice
  main_command command w h = rw (h, found w, made w) refl

log_output-ne : (output : Bytes) (e : Bytes) → log_output output ≡ fatal e → ⊥
unfolding log_output
log_output-ne [] e h = cc
log_output-ne (x ∷ output) e h = cc

log_output-logged : (output out : Bytes) → log_output output ≡ logged out → output ≡ out
unfolding log_output
log_output-logged [] out h = cc
log_output-logged (x ∷ output) out h = cc

module _ {W : Type 0} where
  -- A run that is not fatal is one whose command succeeded.
  end_command-finished :
      (end : Result Bytes × W) → (end_command end).0 ≡ finished → is_ok end.0 ≡ true
  unfolding end_command
  end_command-finished (ok output, w) h = refl
  end_command-finished (err e, w) h = cc

  end_command-logged :
      (end : Result Bytes × W) (out : Bytes) → (end_command end).0 ≡ logged out → end.0 ≡ ok out
  unfolding end_command
  end_command-logged (ok output, w) out h = ap ok (log_output-logged output out h)
  end_command-logged (err e, w) out h = cc

  end_command_world : (end : Result Bytes × W) → (end_command end).1 ≡ end.1
  unfolding end_command
  end_command_world (ok output, w) = refl
  end_command_world (err e, w) = refl

changes-full : (command : Command) → changes command ≡ true → is_empty command ≡ false
unfolding changes is_empty bytes_eq codes
changes-full [] h = cc
changes-full (x ∷ command) h = refl

-- Of the two commands that change something, `uninstall` is the one that leaves nothing.
installed_by-uninstall_iff :
    (before : Bool) (command : Command)
    → changes command ≡ true
    → (installed_by before command ≡ false) ↔ (command ≡ uninstall_command)
unfolding installed_by changes bytes_eq codes
installed_by-uninstall_iff before command h = elim (Bool-cases (bytes_eq command install_command)) [
  | inl e ↦
      let same : command ≡ install_command = eq_of_bytes_eq command install_command e in
      subst (λ t. (installed_by before t ≡ false) ↔ (t ≡ uninstall_command)) (sym same)
        (λ k. cc, λ k. cc (ap (λ t. bytes_eq t install_command) k))
  | inr n ↦
      let e : bytes_eq command uninstall_command ≡ true = ground arith in
      rw (n, e) (λ _. eq_of_bytes_eq command uninstall_command e, λ _. refl)
]

module _ {W : Type 0} (S : Setting W) (c : Controller W) (exe_path : Bytes) (installed : W → Bool)
    (faithful : IsFaithful c installed) (found : (w : W) → S.executable w ≡ ok exe_path)
    (made : (w : W) → (S.new_controller (example_config S.goos exe_path) w).0 ≡ ok c)
    (leaves : (w : W)
      → installed (S.new_controller (example_config S.goos exe_path) w).1 ≡ installed w) where
  one_succeeds :
      (command : Command) (w : W)
      → is_ok (execute command c w).0 ≡ true
      → all_succeed c (command ∷ []) w ≡ true
  unfolding all_succeed
  one_succeeds command w h = ground arith

  -- What is installed after a run that ends well.
  main-installed :
      (command : Command) (w : W)
      → changes command ≡ true
      → (main S false command w).0 ≡ finished
      → installed (main S false command w).1 ≡ installed_by (installed w) command
  unfolding after_choice replay installed_by_all
  main-installed command w changing ended =
      let chosen : W = (S.new_controller (example_config S.goos exe_path) w).1 in
      let run = main_command S c exe_path found made command w (changes-full command changing) in
      let succeeded : is_ok (execute command c chosen).0 ≡ true =
        end_command-finished (execute command c chosen) (sym (ap (λ end. end.0) run) ∙ ended) in
      ap (λ (end : Ending × W). installed end.1) run
      ∙ (ap installed (end_command_world (execute command c chosen))
          ∙ (installed-replay c installed faithful (command ∷ []) chosen
                (one_succeeds command chosen succeeded)
              ∙ ap (λ b. installed_by b command) (leaves w)))

  -- What a run with `status` prints.
  main-printed :
      (w : W) (out : Bytes)
      → (main S false get_status w).0 ≡ logged out
      → (out ≡ codes "not_installed") ↔ (installed w ≡ false)
  unfolding after_choice replay all_succeed installed_by_all is_empty codes
  main-printed w out printed =
      let chosen : W = (S.new_controller (example_config S.goos exe_path) w).1 in
      let run = main_command S c exe_path found made get_status w refl in
      let (there, back) = status-replay c installed faithful [] chosen out refl (
        end_command-logged (execute get_status c chosen) out
          (sym (ap (λ (end : Ending × W). end.0) run) ∙ printed)) in
      (λ h. sym (leaves w) ∙ there h, λ h. back (leaves w ∙ h))

  -- After a run of the example with `install` or `uninstall` that ends without an error and without
  -- output, a run with `status` that prints a line prints `not_installed` exactly if the first was
  -- `uninstall`. The executable's path is to be known, and `NewController` is to make one controller
  -- for it that keeps the contract, and to leave what is installed as it is.
  pub main_status :
      (command : Command) (w : W) (out : Bytes)
      → changes command ≡ true
      → (main S false command w).0 ≡ finished
      → (main S false get_status (main S false command w).1).0 ≡ logged out
      → (out ≡ codes "not_installed") ↔ (command ≡ uninstall_command)
  main_status command w out changing ended printed =
      let (there, back) = main-printed (main S false command w).1 out printed in
      let now = main-installed command w changing ended in
      let (read, give) = installed_by-uninstall_iff (installed w) command changing in
      (λ h. read (sym now ∙ there h), λ h. back (now ∙ give h))
