-- ===== src/Daemon/Systemv/Parents/Walk.antt =====
-- The search for init.d among the ancestors of a process, without the system.
use cyberdaemon.Prelude.{
  ℕ, zero, suc, ◌<◌, false, ◌≡◌, refl, none, some, Option, Bytes, ok, err, arith, Result, ◌⊎◌, inl,
  inr, Bool-cases, if◌then◌else◌, ap,
}
use cyberdaemon.Prelude.Int.{ℤ, pos, int_eq}

-- The search without the system: over what is known of each process and of its parent.
module _ (initd : ℤ → Result (Option Bytes)) (parent : ℤ → Result ℤ) where
  abbrev pub after : Result (Option Bytes) → Result (Option Bytes) → Result (Option Bytes)
  after (err e) later = err e
  after (ok none) later = later
  after (ok (some path)) later = ok (some path)

  abbrev pub at_parent : Result ℤ → (ℤ → Result (Option Bytes)) → Result (Option Bytes)
  at_parent (err e) f = err e
  at_parent (ok q) f = if int_eq q (pos 0) then ok none else f q

  -- The rounds that follow the first.
  unfoldable pub walk : ℕ → ℤ → Result (Option Bytes)
  walk zero p = ok none
  walk (suc left) p = at_parent (parent p) (λ q. after (initd q) (walk left q))

  -- The n-th process above a process; process 0 is no process.
  pub data Ancestor : ℕ → ℤ → ℤ → Type 0 where
    self : {p : ℤ} → Ancestor zero p p
    up :
        {n : ℕ} {p q r : ℤ}
        → parent p ≡ ok q
        → int_eq q (pos 0) ≡ false
        → Ancestor n q r
        → Ancestor (suc n) p r

  pub after_some :
      (r later : Result (Option Bytes)) (path : Bytes)
      → after r later ≡ ok (some path)
      → (r ≡ ok (some path)) ⊎ ((r ≡ ok none) × (later ≡ ok (some path)))
  after_some (err e) later path h = cc
  after_some (ok none) later path h = inr (refl, h)
  after_some (ok (some x)) later path h = inl h

  pub after_none :
      (r later : Result (Option Bytes))
      → after r later ≡ ok none
      → (r ≡ ok none) × (later ≡ ok none)
  after_none (err e) later h = cc
  after_none (ok none) later h = (refl, h)
  after_none (ok (some x)) later h = cc

  at_parent-some :
      (r : Result ℤ) (f : ℤ → Result (Option Bytes)) (path : Bytes)
      → at_parent r f ≡ ok (some path)
      → (q : ℤ) × (r ≡ ok q) × (int_eq q (pos 0) ≡ false) × (f q ≡ ok (some path))
  at_parent-some (err e) f path h = cc
  at_parent-some (ok q) f path h = elim (Bool-cases (int_eq q (pos 0))) [
    | inl z ↦ absurd (cc (ap (λ b. if b then ok none else f q) z))
    | inr nz ↦ (q, refl, nz, rw nz at h)
  ]

  at_parent-none :
      (r : Result ℤ) (f : ℤ → Result (Option Bytes)) (q : ℤ)
      → at_parent r f ≡ ok none
      → r ≡ ok q
      → int_eq q (pos 0) ≡ false
      → f q ≡ ok none
  at_parent-none r f q h e nz = rw (e, at_parent, nz) at h

  pub walk_sound :
      (left : ℕ) (p : ℤ) (path : Bytes)
      → walk left p ≡ ok (some path)
      → (n : ℕ) × (q : ℤ) × (n < left) × Ancestor (suc n) p q × (initd q ≡ ok (some path))
  unfolding walk
  walk_sound zero p path h = cc
  walk_sound (suc left) p path h =
      let (q, is_parent, nz, rest) = at_parent-some (parent p) _ path h in
      elim (after_some (initd q) (walk left q) path rest) [
        | inl found ↦ (0, q, omega arith, up is_parent nz self, found)
        | inr (passed, later) ↦
            let (n, r, near, above, found) = walk_sound left q path later in
            (suc n, r, omega arith, up is_parent nz above, found)
      ]

  pub walk_complete :
      (left : ℕ) (p : ℤ) (n : ℕ) (r : ℤ)
      → walk left p ≡ ok none
      → n < left
      → Ancestor (suc n) p r
      → initd r ≡ ok none
  unfolding walk
  walk_complete zero p n r h near a = absurd (omega arith)
  walk_complete (suc left) p zero r h near (up is_parent nz self) =
      (after_none _ _ (at_parent-none (parent p) _ r h is_parent nz)).0
  walk_complete (suc left) p (suc n) r h near (up {q = q} is_parent nz above) =
      walk_complete left q n r (after_none _ _ (at_parent-none (parent p) _ q h is_parent nz)).1
        (omega arith) above
