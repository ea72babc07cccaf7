-- ===== src/Os/Plans.antt =====
-- What an action writes to the journal: a plan of events that it carries out in order, and breaks
-- off only with an error.
use cyberdaemon.Prelude.{
  List, [], ◌∷◌, ◌++◌, ◌≡◌, refl, ap, sym, ◌∙◌, Result, ok, err, IsOk, append-nil, append_assoc,
  subst,
}
use cyberdaemon.Os.{Os, World, Event, Action, ignore_error, continue, pure, ◌>>◌}

-- The journal after some events, given in the order in which they happen.
abbrev pub log : List Event → List Event → List Event
log [] journal = journal
log (e ∷ events) journal = log events (e ∷ journal)

pub log-append : (xs ys journal : List Event) → log (xs ++ ys) journal ≡ log ys (log xs journal)
log-append [] ys journal = refl
log-append (x ∷ xs) ys journal = log-append xs ys (x ∷ journal)

-- A part `before` of the plan happens, and if the action succeeds nothing of it is left.
pub record Progress {O : Os} (end : Result (Unit {0}) × World O) (plan : List Event) (w : World O)
    : Type 0 where
  pub before : List Event
  pub after : List Event
  pub splits : before ++ after ≡ plan
  pub logged : end.1.journal ≡ log before w.journal
  pub complete : IsOk end.0 → after ≡ []

abbrev pub Follows : {O : Os} → Action O (Unit {0}) → List Event → Type 0
Follows {O} m plan = (w : World O) → Progress (m w) plan w

-- The action carries out the whole plan, whether it then fails or not.
abbrev pub Performs : {O : Os} → Action O (Unit {0}) → List Event → Type 0
Performs {O} m plan = (w : World O) → (m w).1.journal ≡ log plan w.journal

module _ {O : Os} where
  pub Follows-of_Performs :
      (m : Action O (Unit {0})) (plan : List Event) → Performs m plan → Follows m plan
  Follows-of_Performs m plan h w = record {
    before = plan;
    after = [];
    splits = append-nil plan;
    logged = h w;
    complete = λ _. refl;
  }

  pub Follows-pure : Follows {O = O} (pure tt) []
  Follows-pure w = record {
    before = [];
    after = [];
    splits = refl;
    logged = refl;
    complete = λ _. refl;
  }

  pub Follows-ignore_error :
      (m : Action O (Unit {0})) (plan : List Event)
      → Performs m plan
      → Follows (ignore_error m) plan
  Follows-ignore_error m plan h = Follows-of_Performs (ignore_error m) plan h

  continue-Progress :
      (n : Action O (Unit {0})) (p q : List Event) (w : World O) (end : Result (Unit {0}) × World O)
      → Progress end p w
      → Follows n q
      → Progress (continue end.0 (λ _. n) end.1) (p ++ q) w
  continue-Progress n p q w (err e, w') first later = record {
    before = first.before;
    after = first.after ++ q;
    splits = sym (append_assoc first.before first.after q) ∙ ap (λ t. t ++ q) first.splits;
    logged = first.logged;
    complete = λ h. absurd h;
  }
  continue-Progress n p q w (ok u, w') first later = record {
    before = p ++ (later w').before;
    after = (later w').after;
    splits = append_assoc p (later w').before (later w').after ∙ ap (λ t. p ++ t) (later w').splits;
    logged =
        (later w').logged
        ∙ (ap (log (later w').before) (first.logged ∙ ap (λ t. log t w.journal) all_done)
            ∙ sym (log-append p (later w').before w.journal));
    complete = (later w').complete;
  }
    where
      all_done : first.before ≡ p
      all_done =
          sym (append-nil first.before)
          ∙ (ap (λ t. first.before ++ t) (sym (first.complete tt)) ∙ first.splits)

  -- Two actions in turn follow their plans in turn; the second starts only if the first succeeds.
  pub Follows-then :
      (m n : Action O (Unit {0})) (p q : List Event)
      → Follows m p
      → Follows n q
      → Follows (m >> n) (p ++ q)
  Follows-then m n p q hm hn w = continue-Progress n p q w (m w) (hm w) hn

  -- What the journal holds after a success.
  pub Follows-ok :
      (m : Action O (Unit {0})) (plan : List Event) (w : World O)
      → Follows m plan
      → (m w).0 ≡ ok tt
      → (m w).1.journal ≡ log plan w.journal
  Follows-ok m plan w h e =
      (h w).logged
      ∙ ap (λ t. log t w.journal)
          (sym (append-nil (h w).before)
            ∙ (ap (λ t. (h w).before ++ t) (sym ((h w).complete (subst IsOk (sym e) tt)))
                ∙ (h w).splits))

  -- An event that happens whatever comes of it, before a plan.
  pub Follows-first :
      (m n : Action O (Unit {0})) (e : Event) {plan : List Event}
      → Performs m (e ∷ [])
      → Follows n plan
      → Follows (m >> n) (e ∷ plan)
  Follows-first m n e h rest = Follows-then m n (e ∷ []) _ (Follows-of_Performs m (e ∷ []) h) rest
