-- ===== src/Daemon/Systemv/Race.antt =====
-- The PID file between the two processes of daemon_systemv_linux.go. The process that init.d
-- started hands the open file to the daemon that it starts (`ExtraFiles`), so that both share one
-- position in it; it then writes the daemon's PID, while the daemon, when its application is done,
-- seeks to the beginning, truncates and closes. Nothing orders the write before the clean-up.
pub mod Outcomes
use cyberdaemon.Prelude.{
  ℕ, zero, suc, ◌+◌, ◌-◌, append-nil, ap, ◌∙◌, [], ◌∷◌, ◌++◌, ◌≡◌, refl, Bytes, length, take, drop,
  arith,
}

-- A file, and the position that the two processes share.
pub record OpenFile : Type 0 where
  pub contents : Bytes
  pub position : ℕ

zeros : ℕ → Bytes
zeros zero = []
zeros (suc n) = 0 ∷ zeros n

-- write(2): zeros fill a gap before the position, and what the text does not cover stays.
unfoldable pub write_at : Bytes → OpenFile → OpenFile
unfolding zeros
write_at text f = record {
  contents =
      take f.position f.contents
      ++ (zeros (f.position - length f.contents)
          ++ (text ++ drop (f.position + length text) f.contents));
  position = f.position + length text;
}

pub data Launcher : Type 0 where
  writing wrote : Launcher

-- The daemon, up to its clean-up and through it.
pub data Server : Type 0 where
  serving sought truncated closed : Server

pub record Both : Type 0 where
  pub file : OpenFile
  pub launcher : Launcher
  pub server : Server

abbrev pub both : OpenFile → Launcher → Server → Both
both f l s = record { file = f; launcher = l; server = s }

-- One call of one of the two processes; `line` is what is written for the PID.
pub data Move (line : Bytes) : Both → Both → Type 0 where
  write :
      {f : OpenFile} {s : Server} → Move line (both f writing s) (both (write_at line f) wrote s)
  seek :
      {f : OpenFile} {l : Launcher}
      → Move line
          (both f l serving)
          (both (record { contents = f.contents; position = 0 }) l sought)
  truncate :
      {f : OpenFile} {l : Launcher}
      → Move line
          (both f l sought)
          (both (record { contents = []; position = f.position }) l truncated)
  close : {f : OpenFile} {l : Launcher} → Move line (both f l truncated) (both f l closed)

pub data Moves (line : Bytes) (start : Both) : Both → Type 0 where
  here : Moves line start start
  then_ : {b c : Both} → Moves line start b → Move line b c → Moves line start c

-- What a clean-up that has come to the truncation leaves.
abbrev Cleared : Server → OpenFile → Type 0
Cleared serving f = Unit
Cleared sought f = Unit
Cleared truncated f = f.contents ≡ []
Cleared closed f = f.contents ≡ []

Moves-Cleared :
    (line : Bytes) {f : OpenFile} {b : Both}
    → Moves line (both f wrote serving) b
    → (b.launcher ≡ wrote) × Cleared b.server b.file
Moves-Cleared line here = (refl, tt)
Moves-Cleared line (then_ before write) = absurd (cc (Moves-Cleared line before).0)
Moves-Cleared line (then_ before seek) = ((Moves-Cleared line before).0, tt)
Moves-Cleared line (then_ before truncate) = ((Moves-Cleared line before).0, refl)
Moves-Cleared line (then_ before close) = Moves-Cleared line before

-- If the PID is written before the daemon begins its clean-up, the file is empty in the end, which
-- tells the system that the daemon stopped cleanly.
pub finished-contents_of_written :
    (line : Bytes) (f g : OpenFile) (l : Launcher)
    → Moves line (both f wrote serving) (both g l closed)
    → g.contents ≡ []
finished-contents_of_written line f g l moves = (Moves-Cleared line moves).1
