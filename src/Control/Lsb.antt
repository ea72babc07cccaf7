-- ===== src/Control/Lsb.antt =====
-- How both Linux controllers read the exit status of a status command (the switch in `Status` of
-- control/controller_systemd_linux.go and of control/controller_systemv_linux.go), against what the
-- Linux Standard Base says that it means.
use cyberdaemon.Prelude.{
  zero, suc, true, false, List, ◌≡◌, refl, sym, Bytes, Bool-cases, Option-cases, inl, inr, arith,
  none, some, if◌then◌else◌, if-cases, ◌≢◌, Result, ok,
}
use cyberdaemon.Prelude.Int.{ℤ, pos, negsuc, int_eq}
use cyberdaemon.Os.{ExecResult}
use cyberdaemon.Osutil.{CliResult, cli_result, cli_failure}
use cyberdaemon.Control.{Status, running, stopped, stopped_dead, unknown, not_installed}

-- How `Status` reads the outcome of the status command: first the switch on the exit code of a
-- command that failed, then the test for 0.
unfoldable pub status_of_code : ℤ → Status
status_of_code code = if int_eq code (pos 0) then running else unknown

unfoldable pub status_of_result : CliResult → Status
unfolding status_of_code
status_of_result r = elim (r.failure) [
  | none ↦ status_of_code r.exit_code
  | some e ↦
      if int_eq r.exit_code (pos 3)
      then stopped
      else if int_eq r.exit_code (pos 1)
      then stopped_dead
      else status_of_code r.exit_code
]

-- The standard, independently of the code: 1 is for a program that is dead with its PID file there,
-- 2 for one that is dead with its lock file there, and 3 for one that does not run.
abbrev pub lsb_status : ℤ → Status
lsb_status (pos zero) = running
lsb_status (pos (suc zero)) = stopped_dead
lsb_status (pos (suc (suc zero))) = stopped_dead
lsb_status (pos (suc (suc (suc zero)))) = stopped
lsb_status (pos (suc (suc (suc (suc n))))) = unknown
lsb_status (negsuc n) = unknown

-- The status that is returned for an exit status, according to the standard except for 2.
abbrev pub lsb_but_two : ℤ → Status
lsb_but_two code = if int_eq code (pos 2) then unknown else lsb_status code

status_of_code-lsb :
    (code : ℤ)
    → int_eq code (pos 3) ≡ false
    → int_eq code (pos 1) ≡ false
    → status_of_code code ≡ lsb_but_two code
unfolding status_of_code
status_of_code-lsb (pos zero) h k = refl
status_of_code-lsb (pos (suc zero)) h k = cc
status_of_code-lsb (pos (suc (suc zero))) h k = refl
status_of_code-lsb (pos (suc (suc (suc zero)))) h k = cc
status_of_code-lsb (pos (suc (suc (suc (suc n))))) h k = ground arith
status_of_code-lsb (negsuc n) h k = refl

lsb-three : (code : ℤ) → int_eq code (pos 3) ≡ true → lsb_but_two code ≡ stopped
lsb-three (pos n) h = let e : n ≡ 3 = ground arith in rw e
lsb-three (negsuc n) h = cc

lsb-one : (code : ℤ) → int_eq code (pos 1) ≡ true → lsb_but_two code ≡ stopped_dead
lsb-one (pos n) h = let e : n ≡ 1 = ground arith in rw e
lsb-one (negsuc n) h = cc

-- The switch on a failure and the test for 0 read every exit status but 2 as the standard does, since
-- a command that reports no failure exits with 0; for 2 the status is unknown.
pub status_of_result-lsb :
    (exe : Bytes) (args : List Bytes) (r : ExecResult)
    → (r.failure ≡ none → r.exit_code ≡ pos 0)
    → status_of_result (cli_result exe args r) ≡ lsb_but_two r.exit_code
unfolding status_of_result cli_result cli_failure
status_of_result-lsb exe args r exits = elim (Option-cases r.failure) [
  | inl n ↦ rw (n, exits n)
  | inr (e, f) ↦ rw f (elim (Bool-cases (int_eq r.exit_code (pos 3))) [
    | inl three ↦ rw three (sym (lsb-three r.exit_code three))
    | inr a ↦ elim (Bool-cases (int_eq r.exit_code (pos 1))) [
      | inl one ↦ rw (a, one) (sym (lsb-one r.exit_code one))
      | inr b ↦ rw (a, b) (status_of_code-lsb r.exit_code a b)
    ]
  ])
]

-- No exit status means that the daemon is not installed.
lsb_status-ne-not_installed : (code : ℤ) → lsb_status code ≢ not_installed
lsb_status-ne-not_installed (pos zero) h = cc
lsb_status-ne-not_installed (pos (suc zero)) h = cc
lsb_status-ne-not_installed (pos (suc (suc zero))) h = cc
lsb_status-ne-not_installed (pos (suc (suc (suc zero)))) h = cc
lsb_status-ne-not_installed (pos (suc (suc (suc (suc n))))) h = cc
lsb_status-ne-not_installed (negsuc n) h = cc

pub lsb_but_two-ne-not_installed : (code : ℤ) → lsb_but_two code ≢ not_installed
lsb_but_two-ne-not_installed code =
    if-cases (λ (s : Status). s ≢ not_installed) (int_eq code (pos 2)) (λ _ h. cc)
      (λ _. lsb_status-ne-not_installed code)

pub ok-injective : {s t : Status} → ◌≡◌ {A = Result Status} (ok s) (ok t) → s ≡ t
ok-injective h = cc
