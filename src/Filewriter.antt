-- ===== src/Filewriter.antt =====
-- The application of examples/filewriter/main.go: `Stop`, which is called once, beside the goroutine
-- of `updateFileLoop`, as interleaved steps. The channels have no buffer, so that a send and its
-- receive are one step. A timer may fire at any time while `Stop` waits for it.
pub mod Stopping
pub mod Returning
pub mod Program
use cyberdaemon.Prelude.{ℕ, suc, Bool, true, false, Option, none, some, Bytes, codes}

-- How `Stop` returns.
pub data StopResult : Type 0 where
  rejoined no_response no_rejoin : StopResult

unfoldable pub stop_error : StopResult → Option Bytes
stop_error rejoined = none
stop_error no_response = some (codes "application did not respond to stop after 5s")
stop_error no_rejoin = some (codes "application did not stop after 2s")

-- `Stop`: not called yet, at the first `select`, at the second, and returned.
pub data Stopper : Type 0 where
  not_called offering joining : Stopper
  returned : StopResult → Stopper

-- `updateFileLoop`: at its `select`, at the send on `rejoin`, and at the deferred calls, of which the
-- last one closes the file.
pub data Loop : Type 0 where
  selecting answering unwinding ticker_stopped file_removed ended : Loop

-- The file and the ticker: how many lines were written, and what has become of them.
pub record Output : Type 0 where
  pub lines : ℕ
  pub ticking : Bool
  pub removed : Bool
  pub closed : Bool

pub record Both : Type 0 where
  pub output : Output
  pub stopper : Stopper
  pub loop : Loop

abbrev pub both : Output → Stopper → Loop → Both
both o s l = record { output = o; stopper = s; loop = l }

abbrev pub write_line : Output → Output
write_line o = record {
  lines = suc o.lines;
  ticking = o.ticking;
  removed = o.removed;
  closed = o.closed;
}

abbrev pub stop_ticker : Output → Output
stop_ticker o = record { lines = o.lines; ticking = false; removed = o.removed; closed = o.closed }

abbrev pub remove_file : Output → Output
remove_file o = record { lines = o.lines; ticking = o.ticking; removed = true; closed = o.closed }

abbrev pub close_file : Output → Output
close_file o = record { lines = o.lines; ticking = o.ticking; removed = o.removed; closed = true }

-- One step of `Stop`, of the loop, or of both at a channel.
pub data Move : Both → Both → Type 0 where
  call_stop : {o : Output} {l : Loop} → Move (both o not_called l) (both o offering l)
  -- the ticker, with a write that succeeds, or whose error is logged
  tick : {o : Output} {s : Stopper} → Move (both o s selecting) (both (write_line o) s selecting)
  tick_failed : {o : Output} {s : Stopper} → Move (both o s selecting) (both o s selecting)
  -- `o.stop <- rejoin` and `rejoin := <-stop`
  hand_over : {o : Output} → Move (both o offering selecting) (both o joining answering)
  stop_timeout :
      {o : Output} {l : Loop} → Move (both o offering l) (both o (returned no_response) l)
  -- `rejoin <- struct{}{}` and `<-rejoin`
  rejoin : {o : Output} → Move (both o joining answering) (both o (returned rejoined) unwinding)
  rejoin_timeout : {o : Output} {l : Loop} → Move (both o joining l) (both o (returned no_rejoin) l)
  -- `defer ticker.Stop()`, `defer os.Remove(f.Name())` and `defer f.Close()`, the last one first
  unwind_ticker :
      {o : Output} {s : Stopper} → Move (both o s unwinding) (both (stop_ticker o) s ticker_stopped)
  unwind_remove :
      {o : Output} {s : Stopper}
      → Move (both o s ticker_stopped) (both (remove_file o) s file_removed)
  unwind_close :
      {o : Output} {s : Stopper} → Move (both o s file_removed) (both (close_file o) s ended)

pub data Moves (start : Both) : Both → Type 0 where
  here : Moves start start
  then_ : {b c : Both} → Moves start b → Move b c → Moves start c

-- As `Start` leaves the application, with a file that is open.
abbrev pub just_started : Both
just_started =
    both (record { lines = 0; ticking = true; removed = false; closed = false }) not_called
      selecting
