-- ===== src/Daemon/Systemv/Parents/Stat.antt =====
-- What `manualParentPid` makes of a stat file as proc(5) describes it: the process, its name in
-- parentheses, its state, its parent, and more, separated by spaces.
use cyberdaemon.Prelude.{
  ℕ, ◌≤◌, ◌<◌, [], ◌∷◌, ◌++◌, ◌≡◌, ◌⊎◌, inl, ap, ◌∙◌, Bytes, codes, Lacks, All-append, arith, ok,
  err, none, length, append_assoc,
}
use cyberdaemon.Prelude.Int.{ℤ, int_of_uint64}
use cyberdaemon.Text.Split.{split, split_piece}
use cyberdaemon.Text.Decimal.{
  decimal, decimal_int, max_uint64, parse_uint-decimal, parse_uint_no_digit, Lacks-decimal,
}
use cyberdaemon.Os.{Os, World}
use cyberdaemon.Daemon.Systemv.Files.{tiny_read_short, read_limit}
use cyberdaemon.Daemon.Systemv.Parents.{convert_pid, parent_in_stat, manual_parent_pid, stat_path}

-- A line of four texts and a rest, each text with a space behind it.
abbrev spaced : Bytes → Bytes → Bytes → Bytes → Bytes → Bytes
spaced a b c d rest = a ++ (b' ' ∷ (b ++ (b' ' ∷ (c ++ (b' ' ∷ (d ++ (b' ' ∷ rest)))))))

split-spaced :
    (a b c d rest : Bytes)
    → Lacks b' ' a
    → Lacks b' ' b
    → Lacks b' ' c
    → Lacks b' ' d
    → split (spaced a b c d rest) b' ' ≡ a ∷ b ∷ c ∷ d ∷ split rest b' '
split-spaced a b c d rest ha hb hc hd = rw (
  split_piece b' ' a _ ha,
  split_piece b' ' b _ hb,
  split_piece b' ' c _ hc,
  split_piece b' ' d _ hd,
)

-- The contents of a stat file.
abbrev pub stat_contents : ℕ → Bytes → Bytes → ℕ → Bytes → Bytes
stat_contents pid name state parent rest =
    decimal pid
    ++ (b' '
        ∷ ((b'(' ∷ (name ++ (b')' ∷ [])))
            ++ (b' ' ∷ (state ++ (b' ' ∷ (decimal parent ++ (b' ' ∷ rest)))))))

Lacks-name : (name : Bytes) → Lacks b' ' name → Lacks b' ' (b'(' ∷ (name ++ (b')' ∷ [])))
Lacks-name name h = (ground arith, All-append _ name (b')' ∷ []) h (ground arith, tt))

-- A space in a name divides it.
divided :
    (first second t : Bytes)
    → (b'(' ∷ ((first ++ (b' ' ∷ second)) ++ (b')' ∷ []))) ++ t
      ≡ (b'(' ∷ first) ++ (b' ' ∷ ((second ++ (b')' ∷ [])) ++ t))
divided first second t = simp append_assoc

module _ (num_error : Bytes → Bytes) where
  parent_in_stat-spaced :
      (pid : ℤ) (a b c d rest : Bytes)
      → Lacks b' ' a
      → Lacks b' ' b
      → Lacks b' ' c
      → Lacks b' ' d
      → parent_in_stat num_error pid (spaced a b c d rest) ≡ convert_pid num_error pid d
  unfolding parent_in_stat
  parent_in_stat-spaced pid a b c d rest ha hb hc hd =
      rw (split-spaced a b c d rest ha hb hc hd, parent_in_stat)

  module _ (O : Os) where
    -- The parent is found in the stat file of a process whose name and state have no space, where
    -- the file is shorter than the read limit and the parent's number fits 64 bits.
    pub manual_parent_pid-stat :
        (pid : ℤ) (n : ℕ) (name state : Bytes) (parent : ℕ) (rest : Bytes) (w : World O)
        → O.open_file w.state (stat_path pid)
          ≡ ok (record { contents = stat_contents n name state parent rest; read_error = none })
        → length (stat_contents n name state parent rest) < read_limit
        → Lacks b' ' name
        → Lacks b' ' state
        → parent ≤ max_uint64
        → manual_parent_pid num_error O pid w ≡ (ok (int_of_uint64 parent), w)
    unfolding manual_parent_pid convert_pid
    manual_parent_pid-stat pid n name state parent rest w h short hn hs fits =
        rw (tiny_read_short O (stat_path pid) _ w h short) (
          ap (λ r. (r, w))
            (parent_in_stat-spaced pid (decimal n) (b'(' ∷ (name ++ (b')' ∷ []))) state
                (decimal parent) rest (Lacks-decimal b' ' (inl (omega arith)) n)
                (Lacks-name name hn) hs (Lacks-decimal b' ' (inl (omega arith)) parent)
              ∙ rw (parse_uint-decimal parent fits, convert_pid)))

    -- Where the name has one space, and the state begins with no digit, as it never does, the fourth
    -- part is the state, and the result is an error in place of the parent, for every such file that
    -- is shorter than the read limit.
    pub manual_parent_pid_of_spaced_name :
        (pid : ℤ) (n : ℕ) (first second state : Bytes) (c parent : ℕ) (rest : Bytes) (w : World O)
        → O.open_file w.state (stat_path pid)
          ≡ ok (record {
            contents = stat_contents n (first ++ (b' ' ∷ second)) (c ∷ state) parent rest;
            read_error = none;
          })
        → length (stat_contents n (first ++ (b' ' ∷ second)) (c ∷ state) parent rest) < read_limit
        → Lacks b' ' first
        → Lacks b' ' second
        → Lacks b' ' (c ∷ state)
        → (c < b'0') ⊎ (b'9' < c)
        → manual_parent_pid num_error O pid w ≡ (
          err (
              codes "failed to convert parent pid for pid "
              ++ (decimal_int pid ++ (codes " - " ++ num_error (c ∷ state)))),
          w,
        )
    unfolding manual_parent_pid convert_pid
    manual_parent_pid_of_spaced_name pid n first second state c parent rest w h short hf hs hc
          no_digit =
        rw (tiny_read_short O (stat_path pid) _ w h short) (
          ap (λ r. (r, w))
            (ap (λ t. parent_in_stat num_error pid (decimal n ++ (b' ' ∷ t)))
                (divided first second
                  (b' ' ∷ ((c ∷ state) ++ (b' ' ∷ (decimal parent ++ (b' ' ∷ rest))))))
              ∙ (parent_in_stat-spaced pid (decimal n) (b'(' ∷ first) (second ++ (b')' ∷ []))
                    (c ∷ state) (decimal parent ++ (b' ' ∷ rest))
                    (Lacks-decimal b' ' (inl (omega arith)) n) (omega arith, hf)
                    (All-append _ second _ hs (omega arith, tt)) hc
                  ∙ rw (parse_uint_no_digit c state no_digit, convert_pid))))
