-- ===== src/Filewriter/Returning.antt =====
-- `Stop` of the example comes to an end, whatever the goroutine does.
use cyberdaemon.Prelude.{ℕ, ◌<◌, ◌≡◌, ◌⊎◌, inl, inr, refl, arith}
use cyberdaemon.Filewriter.{
  no_response, no_rejoin, Stopper, not_called, offering, joining, returned, Loop, Output, Both,
  both, Move, call_stop, tick, tick_failed, hand_over, stop_timeout, rejoin, rejoin_timeout,
  unwind_ticker, unwind_remove, unwind_close,
}

-- The steps that `Stop` has before it at most.
abbrev pub steps_left : Stopper → ℕ
steps_left not_called = 3
steps_left offering = 2
steps_left joining = 1
steps_left (returned r) = 0

Move-steps_left :
    {b c : Both}
    → Move b c
    → (c.stopper ≡ b.stopper) ⊎ (steps_left c.stopper < steps_left b.stopper)
Move-steps_left call_stop = inr (ground arith)
Move-steps_left tick = inl refl
Move-steps_left tick_failed = inl refl
Move-steps_left hand_over = inr (ground arith)
Move-steps_left stop_timeout = inr (ground arith)
Move-steps_left rejoin = inr (ground arith)
Move-steps_left rejoin_timeout = inr (ground arith)
Move-steps_left unwind_ticker = inl refl
Move-steps_left unwind_remove = inl refl
Move-steps_left unwind_close = inl refl

-- The call, and then the timers, are steps that do not wait for the loop.
next_step :
    (o : Output) (s : Stopper) (l : Loop)
    → (steps_left s ≡ 0)
      ⊎ ((c : Both) × (Move (both o s l) c × (steps_left c.stopper < steps_left s)))
next_step o not_called l = inr (both o offering l, (call_stop, ground arith))
next_step o offering l = inr (both o (returned no_response) l, (stop_timeout, ground arith))
next_step o joining l = inr (both o (returned no_rejoin) l, (rejoin_timeout, ground arith))
next_step o (returned r) l = inl refl

-- Wherever `Stop` and the loop are, a step leaves `Stop` where it is or takes it nearer to its
-- return, which is at most three steps of its own away; and until `Stop` has returned there is a
-- step that takes it nearer, whatever the loop waits for.
pub stop-terminates :
    (b : Both)
    → ((c : Both)
        → Move b c
        → (c.stopper ≡ b.stopper) ⊎ (steps_left c.stopper < steps_left b.stopper))
      × ((steps_left b.stopper ≡ 0)
          ⊎ ((c : Both) × (Move b c × (steps_left c.stopper < steps_left b.stopper))))
stop-terminates b = (λ c move. Move-steps_left move, next_step b.output b.stopper b.loop)
