-- ===== src/Daemon/Systemv/Race/Outcomes.antt =====
-- What the PID file of Daemon/Systemv/Race.antt holds when both processes are done.
use cyberdaemon.Prelude.{
  ℕ, zero, suc, ◌+◌, append-nil, ap, ◌∙◌, [], ◌++◌, ◌≡◌, refl, Bytes, length, drop, arith,
}
use cyberdaemon.Daemon.Systemv.Race.{
  OpenFile, zeros, write_at, Launcher, writing, wrote, Server, serving, sought, truncated, closed,
  Both, both, Move, write, seek, truncate, close, Moves, here, then_,
}

drop-nil : (n : ℕ) → drop {A = ℕ} n [] ≡ []
drop-nil zero = refl
drop-nil (suc n) = refl

write_at_empty :
    (line : Bytes) (f : OpenFile)
    → f.contents ≡ []
    → f.position ≡ 0
    → (write_at line f).contents ≡ line
unfolding write_at zeros
write_at_empty line f h k =
    rw (h, k) (ap (λ t. line ++ t) (drop-nil (0 + length line)) ∙ append-nil line)

-- The file before the write, by how far the clean-up has come.
abbrev Before : Server → OpenFile → Type 0
Before serving f = Unit
Before sought f = f.position ≡ 0
Before truncated f = (f.contents ≡ []) × (f.position ≡ 0)
Before closed f = (f.contents ≡ []) × (f.position ≡ 0)

-- The file after a write that found the daemon in some state of its clean-up, by how far the
-- clean-up has come since.
abbrev After : Bytes → Server → Server → OpenFile → Type 0
After line serving serving f = Unit
After line serving sought f = f.position ≡ 0
After line serving truncated f = (f.contents ≡ []) × (f.position ≡ 0)
After line serving closed f = (f.contents ≡ []) × (f.position ≡ 0)
After line sought serving f = ⊥
After line sought sought f = f.position ≡ length line
After line sought truncated f = (f.contents ≡ []) × (f.position ≡ length line)
After line sought closed f = (f.contents ≡ []) × (f.position ≡ length line)
After line truncated serving f = ⊥
After line truncated sought f = ⊥
After line truncated truncated f = (f.contents ≡ line) × (f.position ≡ length line)
After line truncated closed f = (f.contents ≡ line) × (f.position ≡ length line)
After line closed serving f = ⊥
After line closed sought f = ⊥
After line closed truncated f = ⊥
After line closed closed f = (f.contents ≡ line) × (f.position ≡ length line)

write_at-After :
    (line : Bytes) (s : Server) (f : OpenFile) → Before s f → After line s s (write_at line f)
unfolding write_at
write_at-After line serving f h = tt
write_at-After line sought f h = omega arith
write_at-After line truncated f (h, k) = (write_at_empty line f h k, omega arith)
write_at-After line closed f (h, k) = (write_at_empty line f h k, omega arith)

seek-After :
    (line : Bytes) (s : Server) (f : OpenFile)
    → After line s serving f
    → After line s sought (record { contents = f.contents; position = 0 })
seek-After line serving f h = refl
seek-After line sought f h = absurd h
seek-After line truncated f h = absurd h
seek-After line closed f h = absurd h

truncate-After :
    (line : Bytes) (s : Server) (f : OpenFile)
    → After line s sought f
    → After line s truncated (record { contents = []; position = f.position })
truncate-After line serving f h = (refl, h)
truncate-After line sought f h = (refl, h)
truncate-After line truncated f h = absurd h
truncate-After line closed f h = absurd h

close-After :
    (line : Bytes) (s : Server) (f : OpenFile) → After line s truncated f → After line s closed f
close-After line serving f h = h
close-After line sought f h = h
close-After line truncated f h = h
close-After line closed f h = absurd h

-- The moment of the write in a run, and what it leaves.
record Split (line : Bytes) (start : Both) (b : Both) : Type 0 where
  found : Server
  old : OpenFile
  earlier : Moves line start (both old writing found)
  later : Moves line (both (write_at line old) wrote found) b
  after : After line found b.server b.file

abbrev Reaches : Bytes → Both → Both → Launcher → Type 0
Reaches line start b writing = Before b.server b.file
Reaches line start b wrote = Split line start b

module _ (line : Bytes) (start : Both) where
  Move-Reaches :
      {b c : Both}
      → Moves line start b
      → Move line b c
      → Reaches line start b b.launcher
      → Reaches line start c c.launcher
  Move-Reaches run (write {f = f} {s = s}) h = record {
    found = s;
    old = f;
    earlier = run;
    later = here;
    after = write_at-After line s f h;
  }
  Move-Reaches run (seek {l = writing}) h = refl
  Move-Reaches run (truncate {l = writing}) h = (refl, h)
  Move-Reaches run (close {l = writing}) h = h
  Move-Reaches run (seek {f = f} {l = wrote}) h = record {
    found = h.found;
    old = h.old;
    earlier = h.earlier;
    later = then_ h.later seek;
    after = seek-After line h.found f h.after;
  }
  Move-Reaches run (truncate {f = f} {l = wrote}) h = record {
    found = h.found;
    old = h.old;
    earlier = h.earlier;
    later = then_ h.later truncate;
    after = truncate-After line h.found f h.after;
  }
  Move-Reaches run (close {f = f} {l = wrote}) h = record {
    found = h.found;
    old = h.old;
    earlier = h.earlier;
    later = then_ h.later close;
    after = close-After line h.found f h.after;
  }

Moves-Reaches :
    (line : Bytes) (f : OpenFile) {b : Both}
    → Moves line (both f writing serving) b
    → Reaches line (both f writing serving) b b.launcher
Moves-Reaches line f here = tt
Moves-Reaches line f (then_ before move) =
    Move-Reaches line (both f writing serving) before move (Moves-Reaches line f before)

-- What is in the file in the end, and the position, by the state of the clean-up that the write
-- found.
abbrev pub left_by : Bytes → Server → Bytes × ℕ
left_by line serving = ([], 0)
left_by line sought = ([], length line)
left_by line truncated = (line, length line)
left_by line closed = (line, length line)

-- A run from `start` to the file `end`, with the write made when the clean-up had come to `found`.
pub record Finishes (line : Bytes) (start : Both) (end : OpenFile) : Type 0 where
  pub found : Server
  pub old : OpenFile
  pub earlier : Moves line start (both old writing found)
  pub later : Moves line (both (write_at line old) wrote found) (both end wrote closed)
  pub contents : end.contents ≡ (left_by line found).0
  pub position : end.position ≡ (left_by line found).1

left_by-After :
    (line : Bytes) (s : Server) (f : OpenFile)
    → After line s closed f
    → (f.contents ≡ (left_by line s).0) × (f.position ≡ (left_by line s).1)
left_by-After line serving f h = h
left_by-After line sought f h = h
left_by-After line truncated f h = h
left_by-After line closed f h = h

-- However the calls of the two processes interleave, and whatever is in the file and the position in
-- it, a run in which both are done is one up to the write and one from the write on, and the file
-- depends in the end only on how far the clean-up had come at the write. A write before the daemon's
-- seek leaves the file empty and the position 0; one between the seek and the truncation leaves it
-- empty with the position behind the line; one after the truncation leaves exactly the line.
pub finished-Finishes :
    (line : Bytes) (f g : OpenFile)
    → Moves line (both f writing serving) (both g wrote closed)
    → Finishes line (both f writing serving) g
finished-Finishes line f g moves =
    let h : Split line (both f writing serving) (both g wrote closed) =
      Moves-Reaches line f moves in
    let (contents, position) = left_by-After line h.found g h.after in
    record {
      found = h.found;
      old = h.old;
      earlier = h.earlier;
      later = h.later;
      contents = contents;
      position = position;
    }

-- What may follow a clean-up that is over before the write: the write alone.
abbrev Follows : Bytes → OpenFile → Launcher → OpenFile → Type 0
Follows line g writing f = f ≡ g
Follows line g wrote f = f ≡ write_at line g

Moves-Follows :
    (line : Bytes) (g : OpenFile) {b : Both}
    → Moves line (both g writing closed) b
    → (b.server ≡ closed) × Follows line g b.launcher b.file
Moves-Follows line g here = (refl, refl)
Moves-Follows line g (then_ before write) =
    let (over, same) = Moves-Follows line g before in (over, ap (write_at line) same)
Moves-Follows line g (then_ before seek) = absurd (cc (Moves-Follows line g before).0)
Moves-Follows line g (then_ before truncate) = absurd (cc (Moves-Follows line g before).0)
Moves-Follows line g (then_ before close) = absurd (cc (Moves-Follows line g before).0)

-- If the daemon's clean-up is over before the PID is written, the file holds the line with that PID
-- in the end, whatever was in it and at whatever position: the PID of a process that has ended stays
-- in the file.
pub stale_pid :
    (line : Bytes) (f g h : OpenFile)
    → Moves line (both f writing serving) (both g writing closed)
    → Moves line (both g writing closed) (both h wrote closed)
    → h.contents ≡ line
stale_pid line f g h cleaning writes =
    let cleaned : Before closed g = Moves-Reaches line f cleaning in
    let (empty, at_start) = cleaned in
    ap (λ (t : OpenFile). t.contents) (Moves-Follows line g writes).1
    ∙ write_at_empty line g empty at_start
