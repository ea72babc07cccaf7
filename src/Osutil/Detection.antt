-- ===== src/Osutil/Detection.antt =====
-- Which executable a search finds, and when a system counts as one with systemd or System V.
use cyberdaemon.Prelude.{
  Bool, true, false, List, [], ◌∷◌, ◌++◌, ◌≡◌, ◌↔◌, inl, inr, refl, ap, sym, subst, Bytes, codes,
  All, arith, ok, IsErr, Bool-cases, if◌then◌else◌,
}
use cyberdaemon.Prelude.Int.{ℤ, pos, int_eq, int_eq_iff}
use cyberdaemon.Text.FilePath.{join_path}
use cyberdaemon.Os.{Os, World, is_file}
use cyberdaemon.Osutil.{
  search_in, search_for_exe_in_paths, systemctl_exe_name, systemctl_exe_dir_paths, is_systemd,
  try_systemctl, service_exe_dir_paths, is_systemv, try_service, run_daemon_cli, cli_result,
  format_strings,
}

module _ (O : Os) (w : World O) where
  abbrev pub has_file : Bytes → Bool
  has_file p = is_file (O.stat w.state p)

  abbrev pub in_dir : Bytes → Bytes → Bytes
  in_dir exe_name dir = join_path (dir ∷ exe_name ∷ [])

  -- The first directory that holds the executable.
  pub record FirstWith (exe_name : Bytes) (dirs : List Bytes) (path : Bytes) : Type 0 where
    pub before : List Bytes
    pub dir : Bytes
    pub rest : List Bytes
    pub splits : dirs ≡ before ++ dir ∷ rest
    pub none_before : All (λ d. has_file (in_dir exe_name d) ≡ false) before
    pub is_path : path ≡ in_dir exe_name dir
    pub here : has_file path ≡ true

  search_in-first :
      (exe_name : Bytes) (all dirs : List Bytes) (path : Bytes)
      → (search_in O exe_name all dirs w).0 ≡ ok path
      → FirstWith exe_name dirs path
  unfolding search_in
  search_in-first exe_name all [] path h = cc
  search_in-first exe_name all (d ∷ dirs) path h =
      elim (Bool-cases (has_file (in_dir exe_name d))) [
        | inl yes_here ↦
            let e : in_dir exe_name d ≡ path = ground arith in
            record {
              before = [];
              dir = d;
              rest = dirs;
              splits = refl;
              none_before = tt;
              is_path = sym e;
              here = subst (λ t. has_file t ≡ true) e yes_here;
            }
        | inr not_here ↦
            let later = search_in-first exe_name all dirs path (ground arith) in
            record {
              before = d ∷ later.before;
              dir = later.dir;
              rest = later.rest;
              splits = ap (λ t. d ∷ t) later.splits;
              none_before = (not_here, later.none_before);
              is_path = later.is_path;
              here = later.here;
            }
      ]

  search_in-missing :
      (exe_name : Bytes) (all dirs : List Bytes)
      → IsErr (search_in O exe_name all dirs w).0
      → All (λ d. has_file (in_dir exe_name d) ≡ false) dirs
  unfolding search_in
  search_in-missing exe_name all [] h = tt
  search_in-missing exe_name all (d ∷ dirs) h = elim (Bool-cases (has_file (in_dir exe_name d))) [
    | inl yes_here ↦ absurd (rw yes_here at h)
    | inr not_here ↦ (not_here, search_in-missing exe_name all dirs (rw not_here at h))
  ]

  search_in_world :
      (exe_name : Bytes) (all dirs : List Bytes) → (search_in O exe_name all dirs w).1 ≡ w
  unfolding search_in
  search_in_world exe_name all [] = refl
  search_in_world exe_name all (d ∷ dirs) = elim (Bool-cases (has_file (in_dir exe_name d))) [
    | inl yes_here ↦ rw yes_here
    | inr not_here ↦ rw not_here (search_in_world exe_name all dirs)
  ]

  pub search_for_exe_in_paths_world :
      (exe_name : Bytes) (dirs : List Bytes) → (search_for_exe_in_paths O exe_name dirs w).1 ≡ w
  unfolding search_for_exe_in_paths
  search_for_exe_in_paths_world exe_name dirs = search_in_world exe_name dirs dirs

  -- A search answers with the file of that name in the first of the directories that has one.
  pub search-first :
      (exe_name : Bytes) (dirs : List Bytes) (path : Bytes)
      → (search_for_exe_in_paths O exe_name dirs w).0 ≡ ok path
      → FirstWith exe_name dirs path
  unfolding search_for_exe_in_paths
  search-first exe_name dirs path h = search_in-first exe_name dirs dirs path h

  -- A search fails only if none of the directories has such a file.
  pub search-missing :
      (exe_name : Bytes) (dirs : List Bytes)
      → IsErr (search_for_exe_in_paths O exe_name dirs w).0
      → All (λ d. has_file (in_dir exe_name d) ≡ false) dirs
  unfolding search_for_exe_in_paths
  search-missing exe_name dirs h = search_in-missing exe_name dirs dirs h

  pub systemctl_path : in_dir systemctl_exe_name (codes "/bin") ≡ codes "/bin/systemctl"
  unfolding join_path codes
  systemctl_path = refl

  -- The exit code of systemctl with no arguments.
  abbrev pub systemctl_code : ℤ
  systemctl_code = (O.execute w.state (codes "/bin/systemctl") []).1.exit_code

  abbrev pub has_systemctl : Bool
  has_systemctl = has_file (codes "/bin/systemctl")

  find_systemctl_present :
      has_systemctl ≡ true
      → search_for_exe_in_paths O systemctl_exe_name systemctl_exe_dir_paths w
        ≡ (ok (codes "/bin/systemctl"), w)
  unfolding search_for_exe_in_paths search_in format_strings join_path codes
  find_systemctl_present e = rw e

  pub is_systemd_present :
      has_systemctl ≡ true
      → (is_systemd O w).0
        ≡ ok (if int_eq systemctl_code (pos 0) then (codes "/bin/systemctl", true) else ([], false))
  unfolding is_systemd try_systemctl run_daemon_cli cli_result
  is_systemd_present e = rw (find_systemctl_present e)

  pub is_systemd_absent : has_systemctl ≡ false → is_systemd O w ≡ (ok ([], false), w)
  unfolding is_systemd search_for_exe_in_paths search_in join_path codes try_systemctl
  is_systemd_absent e = rw e

  -- The system counts as one with systemd exactly if /bin/systemctl is a file, and no directory,
  -- and exits with status 0 when it is run with no arguments.
  pub is_systemd-found_iff :
      ((is_systemd O w).0 ≡ ok (codes "/bin/systemctl", true))
      ↔ ((has_systemctl ≡ true) × (systemctl_code ≡ pos 0))
  is_systemd-found_iff = elim (Bool-cases has_systemctl) [
    | inl e ↦
        rw (e, is_systemd_present e)
          (elim (Bool-cases (int_eq systemctl_code (pos 0))) [
            | inl z ↦ rw z (λ _. (refl, (int_eq_iff systemctl_code (pos 0)).0 z), λ _. refl)
            | inr n ↦ rw n (λ h. cc, λ h. cc ((int_eq_iff systemctl_code (pos 0)).1 h.1, n))
          ])
    | inr e ↦ rw (e, ap (λ t. t.0) (is_systemd_absent e)) (λ h. cc, λ h. cc)
  ]

  -- What a system without the service tool is told.
  abbrev pub no_service : Bytes
  no_service =
      codes "failed to locate 'service' executable in the following directory paths: "
      ++ format_strings service_exe_dir_paths

  pub is_systemv_absent :
      has_file (codes "/sbin/service") ≡ false
      → has_file (codes "/usr/sbin/service") ≡ false
      → is_systemv O w ≡ (
        ok (record {
          service_path = [];
          is_red_hat = false;
          why_not_systemv = no_service;
          found = false;
        }),
        w,
      )
  unfolding is_systemv search_for_exe_in_paths search_in join_path codes try_service
  is_systemv_absent no_sbin no_usr_sbin = rw (no_sbin, no_usr_sbin)
