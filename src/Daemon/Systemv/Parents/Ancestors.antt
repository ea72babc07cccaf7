-- ===== src/Daemon/Systemv/Parents/Ancestors.antt =====
-- Which processes the search for init.d looks at, and what its answer means.
use cyberdaemon.Prelude.{
  ℕ, zero, suc, ◌+◌, ◌<◌, true, false, List, [], ◌∷◌, ◌≡◌, refl, Option, none, some, Bytes, ok, err,
  arith, Result, inl, inr, Bool-cases, if◌then◌else◌, ap, ◌∙◌, sym, map_err,
}
use cyberdaemon.Prelude.Int.{ℤ, pos, int_eq}
use cyberdaemon.Text.Search.{has_prefix}
use cyberdaemon.Text.Split.{split}
use cyberdaemon.Os.{Os, World, Action, ◌>>=◌, pure, continue}
use cyberdaemon.Daemon.Systemv.Files.{tiny_read}
use cyberdaemon.Daemon.Systemv.Parents.Walk.{
  after, at_parent, after_some, after_none, walk_sound, walk_complete, walk, Ancestor, self,
}
use cyberdaemon.Daemon.Systemv.Parents.{
  initd_dir, cmdline_path, script_argument, manual_parent_pid, is_pid_initd, search_parents,
  is_initd_our_parent,
}

-- `script_argument` from the i-th argument on: its answer is one of the first four arguments.
script_argument-prefix :
    (i : ℕ) (args : List Bytes) (path : Bytes)
    → script_argument i args ≡ some path
    → has_prefix path initd_dir ≡ true
unfolding script_argument
script_argument-prefix i [] path h = cc
script_argument-prefix i (a ∷ rest) path h =
    ground (arith, script_argument-prefix (i + 1) rest path)

module _ (num_error : Bytes → Bytes) (O : Os) where
  -- Reading files changes nothing.
  manual_parent_pid_world : (pid : ℤ) (w : World O) → (manual_parent_pid num_error O pid w).1 ≡ w
  unfolding manual_parent_pid tiny_read
  manual_parent_pid_world pid w = ground arith

  is_pid_initd_world : (pid : ℤ) (w : World O) → (is_pid_initd num_error O pid w).1 ≡ w
  unfolding is_pid_initd tiny_read
  is_pid_initd_world pid w = ground arith

module _ (num_error : Bytes → Bytes) (O : Os) (w : World O) where
  -- What the files of /proc tell of a process in this state of the system.
  abbrev pub initd_of : ℤ → Result (Option Bytes)
  initd_of pid = (is_pid_initd num_error O pid w).0

  abbrev pub parent_of : ℤ → Result ℤ
  parent_of pid = (manual_parent_pid num_error O pid w).0

  abbrev on_found : Action O (Option Bytes) → Option Bytes → Action O (Option Bytes)
  on_found later found = elim found [ some path ↦ pure (some path) | none ↦ later ]

  look_step :
      (r : Result (Option Bytes)) (later : Action O (Option Bytes)) (v : Result (Option Bytes))
      → later w ≡ (v, w)
      → continue r (on_found later) w ≡ (after initd_of parent_of r v, w)
  look_step (err e) later v h = refl
  look_step (ok none) later v h = h
  look_step (ok (some path)) later v h = refl

  look-after :
      (p : ℤ) (later : Action O (Option Bytes)) (v : Result (Option Bytes))
      → later w ≡ (v, w)
      → (is_pid_initd num_error O p >>= on_found later) w
        ≡ (after initd_of parent_of (initd_of p) v, w)
  look-after p later v h =
      ap (λ (u : World O). continue (initd_of p) (on_found later) u)
        (is_pid_initd_world num_error O p w)
      ∙ look_step (initd_of p) later v h

  abbrev round : Action O (Option Bytes) → ℤ → Action O (Option Bytes)
  round later q =
      if int_eq q (pos 0) then pure none else is_pid_initd num_error O q >>= on_found later

  round_step :
      (r : Result ℤ) (later : ℤ → Action O (Option Bytes)) (v : ℤ → Result (Option Bytes))
      → ((q : ℤ) → later q w ≡ (v q, w))
      → continue r (λ q. round (later q) q) w
        ≡ (at_parent initd_of parent_of r (λ q. after initd_of parent_of (initd_of q) (v q)), w)
  round_step (err e) later v h = refl
  round_step (ok q) later v h = elim (Bool-cases (int_eq q (pos 0))) [
    | inl z ↦ rw z
    | inr nz ↦ rw nz (look-after q (later q) (v q) (h q))
  ]

  search_parents-walk :
      (left : ℕ) (p : ℤ)
      → search_parents num_error O left false p w ≡ (walk initd_of parent_of left p, w)
  unfolding search_parents walk
  search_parents-walk zero p = refl
  search_parents-walk (suc left) p =
      ap
        (λ (u : World O).
          continue (parent_of p) (λ q. round (search_parents num_error O left false q) q) u)
        (manual_parent_pid_world num_error O p w)
      ∙ round_step (parent_of p) (search_parents num_error O left false)
          (walk initd_of parent_of left) (search_parents-walk left)

  is_initd_our_parent-walk : is_initd_our_parent num_error O w ≡ (
    after initd_of parent_of
        (initd_of (O.parent_pid w.state))
        (walk initd_of parent_of 4 (O.parent_pid w.state)),
    w,
  )
  unfolding is_initd_our_parent
  is_initd_our_parent-walk =
      look-after (O.parent_pid w.state) _ _ (search_parents-walk 4 (O.parent_pid w.state))

  -- The search changes nothing.
  pub is_initd_our_parent_world : (is_initd_our_parent num_error O w).1 ≡ w
  is_initd_our_parent_world = ap (λ t. t.1) is_initd_our_parent-walk

  initd_in :
      (r : Result Bytes) (f : Bytes → Bytes) (u : World O) (path : Bytes)
      → (continue {W = World O} (map_err f r) (λ c. pure (script_argument 0 (split c 0))) u).0
        ≡ ok (some path)
      → has_prefix path initd_dir ≡ true
  initd_in (err e) f u path h = cc
  initd_in (ok c) f u path h = script_argument-prefix 0 (split c 0) path (ground arith)

  initd_of-prefix :
      (q : ℤ) (path : Bytes) → initd_of q ≡ ok (some path) → has_prefix path initd_dir ≡ true
  unfolding is_pid_initd
  initd_of-prefix q path h = initd_in (tiny_read O (cmdline_path q) w).0 _ _ path h

  -- If the search finds a script, the script lies in /etc/init.d, and is an argument of one of the
  -- five processes that are the parent of this one and the next four above it.
  pub is_initd_our_parent_sound :
      (path : Bytes)
      → (is_initd_our_parent num_error O w).0 ≡ ok (some path)
      → (has_prefix path initd_dir ≡ true)
        × ((n : ℕ) × (q : ℤ) × (n < 5)
            × Ancestor initd_of parent_of n (O.parent_pid w.state) q
            × (initd_of q ≡ ok (some path)))
  is_initd_our_parent_sound path h =
      let start : ℤ = O.parent_pid w.state in
      elim (after_some initd_of parent_of (initd_of start) (walk initd_of parent_of 4 start) path
        (sym (ap (λ t. t.0) is_initd_our_parent-walk) ∙ h)) [
          | inl found ↦ (initd_of-prefix start path found, (0, start, omega arith, self, found))
          | inr (passed, later) ↦
              let (n, q, near, above, found) = walk_sound initd_of parent_of 4 start path later in
              (initd_of-prefix q path found, (suc n, q, omega arith, above, found))
        ]

  answers_none :
      (is_initd_our_parent num_error O w).0 ≡ ok none
      → (initd_of (O.parent_pid w.state) ≡ ok none)
        × (walk initd_of parent_of 4 (O.parent_pid w.state) ≡ ok none)
  answers_none h =
      after_none initd_of parent_of _ _ (sym (ap (λ t. t.0) is_initd_our_parent-walk) ∙ h)

  -- If the search ends without a script, none of those five processes is init.d.
  pub is_initd_our_parent_complete :
      (n : ℕ) (q : ℤ)
      → (is_initd_our_parent num_error O w).0 ≡ ok none
      → n < 5
      → Ancestor initd_of parent_of n (O.parent_pid w.state) q
      → initd_of q ≡ ok none
  is_initd_our_parent_complete zero q h near self = (answers_none h).0
  is_initd_our_parent_complete (suc n) q h near above =
      walk_complete initd_of parent_of 4 (O.parent_pid w.state) n q (answers_none h).1 (omega arith)
        above
