-- ===== src/Filewriter/Stopping.antt =====
-- What `Stop` of the example says of the goroutine that writes the file.
use cyberdaemon.Prelude.{true, false, ◌≡◌, refl, ◌∙◌, sym, ap, subst}
use cyberdaemon.Filewriter.{
  rejoined, no_response, no_rejoin, Stopper, not_called, offering, joining, returned, Loop,
  selecting, answering, unwinding, ticker_stopped, file_removed, ended, Output, Both, both, Move,
  call_stop, tick, tick_failed, hand_over, stop_timeout, rejoin, rejoin_timeout, unwind_ticker,
  unwind_remove, unwind_close, Moves, here, then_, just_started, stop_ticker, remove_file,
  close_file,
}

-- The loop has left its `select` for good.
abbrev IsLeaving : Loop → Type 0
IsLeaving selecting = ⊥
IsLeaving answering = ⊥
IsLeaving unwinding = Unit
IsLeaving ticker_stopped = Unit
IsLeaving file_removed = Unit
IsLeaving ended = Unit

abbrev pub IsIntact : Output → Type 0
IsIntact o = (o.ticking ≡ true) × ((o.removed ≡ false) × (o.closed ≡ false))

-- Where the loop is, by where `Stop` is.
abbrev Agrees : Stopper → Loop → Output → Type 0
Agrees not_called l o = (l ≡ selecting) × IsIntact o
Agrees offering l o = (l ≡ selecting) × IsIntact o
Agrees joining l o = (l ≡ answering) × IsIntact o
Agrees (returned rejoined) l o = IsLeaving l
Agrees (returned no_response) l o = (l ≡ selecting) × IsIntact o
Agrees (returned no_rejoin) l o = (l ≡ answering) × IsIntact o

-- What holds of one side holds after a step of the other.
Agrees-selecting :
    (s : Stopper) (o p : Output)
    → (IsIntact o → IsIntact p)
    → Agrees s selecting o
    → Agrees s selecting p
Agrees-selecting not_called o p keep (h, k) = (h, keep k)
Agrees-selecting offering o p keep (h, k) = (h, keep k)
Agrees-selecting joining o p keep (h, k) = (h, keep k)
Agrees-selecting (returned rejoined) o p keep h = h
Agrees-selecting (returned no_response) o p keep (h, k) = (h, keep k)
Agrees-selecting (returned no_rejoin) o p keep (h, k) = (h, keep k)

-- A loop that is leaving is one that has rejoined.
Agrees-leaving :
    (s : Stopper) (l m : Loop) (o p : Output)
    → IsLeaving l
    → IsLeaving m
    → Agrees s l o
    → Agrees s m p
Agrees-leaving not_called l m o p leaving there (h, k) = absurd (subst IsLeaving h leaving)
Agrees-leaving offering l m o p leaving there (h, k) = absurd (subst IsLeaving h leaving)
Agrees-leaving joining l m o p leaving there (h, k) = absurd (subst IsLeaving h leaving)
Agrees-leaving (returned rejoined) l m o p leaving there h = there
Agrees-leaving (returned no_response) l m o p leaving there (h, k) =
    absurd (subst IsLeaving h leaving)
Agrees-leaving (returned no_rejoin) l m o p leaving there (h, k) =
    absurd (subst IsLeaving h leaving)

Move-Agrees :
    {b c : Both} → Move b c → Agrees b.stopper b.loop b.output → Agrees c.stopper c.loop c.output
Move-Agrees call_stop h = h
Move-Agrees (tick {o = o} {s = s}) h = Agrees-selecting s o _ (λ k. k) h
Move-Agrees tick_failed h = h
Move-Agrees hand_over (h, k) = (refl, k)
Move-Agrees stop_timeout h = h
Move-Agrees rejoin h = tt
Move-Agrees rejoin_timeout h = h
Move-Agrees (unwind_ticker {s = s}) h = Agrees-leaving s unwinding ticker_stopped _ _ tt tt h
Move-Agrees (unwind_remove {s = s}) h = Agrees-leaving s ticker_stopped file_removed _ _ tt tt h
Move-Agrees (unwind_close {s = s}) h = Agrees-leaving s file_removed ended _ _ tt tt h

Moves-Agrees : {b : Both} → Moves just_started b → Agrees b.stopper b.loop b.output
Moves-Agrees here = (refl, (refl, (refl, refl)))
Moves-Agrees (then_ before move) = Move-Agrees move (Moves-Agrees before)

-- Once the loop is leaving, and `Stop` has returned, nothing is written.
Move-IsLeaving :
    {b c : Both}
    → Move b c
    → b.stopper ≡ returned rejoined
    → IsLeaving b.loop
    → (c.stopper ≡ returned rejoined) × (IsLeaving c.loop × (c.output.lines ≡ b.output.lines))
Move-IsLeaving call_stop h l = absurd (cc h)
Move-IsLeaving tick h l = absurd l
Move-IsLeaving tick_failed h l = absurd l
Move-IsLeaving hand_over h l = absurd l
Move-IsLeaving stop_timeout h l = absurd (cc h)
Move-IsLeaving rejoin h l = absurd l
Move-IsLeaving rejoin_timeout h l = absurd (cc h)
Move-IsLeaving unwind_ticker h l = (h, (tt, refl))
Move-IsLeaving unwind_remove h l = (h, (tt, refl))
Move-IsLeaving unwind_close h l = (h, (tt, refl))

Moves-IsLeaving :
    {b c : Both}
    → Moves b c
    → b.stopper ≡ returned rejoined
    → IsLeaving b.loop
    → (c.stopper ≡ returned rejoined) × (IsLeaving c.loop × (c.output.lines ≡ b.output.lines))
Moves-IsLeaving here h l = (h, (l, refl))
Moves-IsLeaving (then_ before move) h l =
    let (s, (m, e)) = Moves-IsLeaving before h l in
    let (t, (n, f)) = Move-IsLeaving move s m in (t, (n, f ∙ e))

-- The deferred calls that are left, run to their end.
abbrev unwound : Loop → Output → Output
unwound selecting o = o
unwound answering o = o
unwound unwinding o = close_file (remove_file (stop_ticker o))
unwound ticker_stopped o = close_file (remove_file o)
unwound file_removed o = close_file o
unwound ended o = o

unwind-Moves :
    (o : Output) (s : Stopper) (l : Loop)
    → IsLeaving l
    → Moves (both o s l) (both (unwound l o) s ended)
unwind-Moves o s selecting h = absurd h
unwind-Moves o s answering h = absurd h
unwind-Moves o s unwinding h = then_ (then_ (then_ here unwind_ticker) unwind_remove) unwind_close
unwind-Moves o s ticker_stopped h = then_ (then_ here unwind_remove) unwind_close
unwind-Moves o s file_removed h = then_ here unwind_close
unwind-Moves o s ended h = here

-- When `Stop` returns without an error, nothing is written to the file from then on, however the
-- two go on; and wherever they have come to by then, the loop can come to its end, with `Stop`
-- returned.
pub rejoined-quiet :
    {o p : Output} {s : Stopper} {l m : Loop}
    → Moves just_started (both o (returned rejoined) l)
    → Moves (both o (returned rejoined) l) (both p s m)
    → (p.lines ≡ o.lines)
      × ((end : Output) × Moves (both p s m) (both end (returned rejoined) ended))
rejoined-quiet {p = p} {s = s} {m = m} first later =
    let (there, (leaving, same)) = Moves-IsLeaving later refl (Moves-Agrees first) in
    (
      same,
      (
        unwound m p,
        subst (λ t. Moves (both p s m) (both (unwound m p) t ended)) there
            (unwind-Moves p s m leaving),
      ),
    )

-- A loop at the send on `rejoin`, with nobody to receive, stays there.
Move-stuck : {b c : Both} → Move b c → b.stopper ≡ returned no_rejoin → b.loop ≡ answering → c ≡ b
Move-stuck call_stop h l = absurd (cc h)
Move-stuck tick h l = absurd (cc l)
Move-stuck tick_failed h l = refl
Move-stuck hand_over h l = absurd (cc h)
Move-stuck stop_timeout h l = absurd (cc h)
Move-stuck rejoin h l = absurd (cc h)
Move-stuck rejoin_timeout h l = absurd (cc h)
Move-stuck unwind_ticker h l = absurd (cc l)
Move-stuck unwind_remove h l = absurd (cc l)
Move-stuck unwind_close h l = absurd (cc l)

Moves-stuck : {b c : Both} → Moves b c → b.stopper ≡ returned no_rejoin → b.loop ≡ answering → c ≡ b
Moves-stuck here h l = refl
Moves-stuck (then_ before move) h l =
    let e = Moves-stuck before h l in
    Move-stuck move (ap (λ t. t.stopper) e ∙ h) (ap (λ t. t.loop) e ∙ l) ∙ e

-- When `Stop` gives up on a loop that has taken its signal, the loop waits for ever to answer it:
-- nothing of the two changes any more, and the file stays open and in place.
pub unrejoined-stuck :
    {o : Output} {l : Loop} {c : Both}
    → Moves just_started (both o (returned no_rejoin) l)
    → Moves (both o (returned no_rejoin) l) c
    → (c ≡ both o (returned no_rejoin) answering) × IsIntact c.output
unrejoined-stuck {o = o} first later =
    let (at_answer, intact) = Moves-Agrees first in
    let e = Moves-stuck later refl at_answer in
    (
      e ∙ ap (λ t. both o (returned no_rejoin) t) at_answer,
      subst (λ t. IsIntact t.output) (sym e) intact,
    )
