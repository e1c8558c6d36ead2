-- ===== src/Amqp/Reactor/Serve/Finish.antt =====
-- The end of `reactorServe` (amqp/reactor/runtime.ts): how much is left to do once it has stopped.
use axiam_typescript_sdk.Prelude.{
  ℕ, ◌+◌, ◌≡◌, ◌⊎◌, inl, inr, refl, sym, ap, Bool, true, false, List, [], ◌∷◌, arith, Bool-cases,
  length, All,
}
use axiam_typescript_sdk.Amqp.Reactor.Serve.{
  Phase, subscribed, racing, cancelling, draining, closing, finished, Server, has, stopped,
  on_message, on_settled, Step, message, settles, trigger, stop, cancelled, drained, closed, Steps,
  done, next,
}
use axiam_typescript_sdk.Amqp.Reactor.Serve.Drain.{length-drop, Steps-drained}

-- The lines of the function that are left from the phase on.
abbrev pub lines_left : Phase → ℕ
lines_left racing = 4
lines_left cancelling = 3
lines_left (draining waiting) = 2
lines_left closing = 1
lines_left finished = 0

-- With the dispatches that have not settled.
abbrev pub work_left : Server → ℕ
work_left s = lines_left s.phase + length s.in_flight

-- The steps of a run that are the function's own lines or settlements: deliveries and triggers
-- come from outside.
abbrev pub own_step : {s t : Server} → Step s t → ℕ
own_step (message s) = 0
own_step (settles s n h) = 1
own_step (trigger s) = 0
own_step (stop s p t) = 1
own_step (cancelled s p) = 1
own_step (drained s waiting p gone) = 1
own_step (closed s p) = 1

abbrev pub own_steps : {s t : Server} → Steps s t → ℕ
own_steps done = 0
own_steps (next r step) = own_steps r + own_step step

message-work_left : (s : Server) → stopped s.phase ≡ true → work_left (on_message s) ≡ work_left s
unfolding on_message
message-work_left s h = rw h refl

message-phase : (s : Server) → (on_message s).phase ≡ s.phase
unfolding on_message
message-phase s = elim (Bool-cases (stopped s.phase)) [
  | inl past ↦ rw past refl
  | inr running ↦ rw running refl
]

Step-stopped : {s t : Server} → Step s t → stopped s.phase ≡ true → stopped t.phase ≡ true
unfolding on_settled
Step-stopped (message s) h = rw (message-phase s) h
Step-stopped (settles s n k) h = h
Step-stopped (trigger s) h = h
Step-stopped (stop s p t) h = refl
Step-stopped (cancelled s p) h = refl
Step-stopped (drained s waiting p gone) h = refl
Step-stopped (closed s p) h = refl

Steps-trans : {s t u : Server} → Steps s t → Steps t u → Steps s u
Steps-trans r done = r
Steps-trans r (next q step) = next (Steps-trans r q) step

Steps-stopped : {s t : Server} → Steps s t → stopped s.phase ≡ true → stopped t.phase ≡ true
Steps-stopped done h = h
Steps-stopped (next r step) h = Step-stopped step (Steps-stopped r h)

Step-work :
    {s t : Server} (step : Step s t)
    → stopped s.phase ≡ true
    → own_step step + work_left t ≡ work_left s
unfolding on_settled
Step-work (message s) h = omega (arith, message-work_left s h)
Step-work (settles s n k) h = omega (arith, length-drop n s.in_flight k)
Step-work (trigger s) h = omega arith
Step-work (stop s p t) h = omega (arith, ap lines_left p)
Step-work (cancelled s p) h = omega (arith, ap lines_left p)
Step-work (drained s waiting p gone) h = omega (arith, ap lines_left p)
Step-work (closed s p) h = omega (arith, ap lines_left p)

-- Past the stop, a run takes exactly as many steps of its own as the work it has done: the
-- function's own lines and the settlements of dispatches bring it nearer to its end, one by one, and
-- no delivery adds to what is left.
Steps-work :
    {s t : Server} (r : Steps s t)
    → stopped s.phase ≡ true
    → own_steps r + work_left t ≡ work_left s
Steps-work done h = omega arith
Steps-work (next r step) h = omega (arith, Steps-work r h, Step-work step (Steps-stopped r h))

-- Either all those listed have settled, or one of them is in flight.
gone_or_waiting :
    (ns waiting : List ℕ) → All (λ n. has n ns ≡ false) waiting ⊎ ((n : ℕ) × (has n ns ≡ true))
gone_or_waiting ns [] = inl tt
gone_or_waiting ns (w ∷ waiting) = elim (Bool-cases (has w ns)) [
  | inl flying ↦ inr (w, flying)
  | inr gone ↦ elim (gone_or_waiting ns waiting) [
    | inl all ↦ inl (gone, all)
    | inr found ↦ inr found
  ]
]

-- A step of the function's own, or a settlement, is next.
abbrev pub Proceeds : Server → Type 0
Proceeds s = (t : Server) × (step : Step s t) × (own_step step ≡ 1)

-- The function has come to its end, with everything settled and nothing left to do.
abbrev pub IsDone : Server → Type 0
IsDone s = (s.phase ≡ finished) × (s.settled ≡ s.started) × (work_left s ≡ 0)

phase-Proceeds :
    (p : Phase) (s : Server) → s.phase ≡ p → stopped p ≡ true → (s.phase ≡ finished) ⊎ Proceeds s
phase-Proceeds racing s e h = cc
phase-Proceeds cancelling s e h = inr (_, cancelled s e, refl)
phase-Proceeds (draining waiting) s e h = elim (gone_or_waiting s.in_flight waiting) [
  | inl gone ↦ inr (_, drained s waiting e gone, refl)
  | inr (n, flying) ↦ inr (_, settles s n flying, refl)
]
phase-Proceeds closing s e h = inr (_, closed s e, refl)
phase-Proceeds finished s e h = inl e

finished-IsDone :
    {aborted : Bool} {s : Server} → Steps (subscribed aborted) s → s.phase ≡ finished → IsDone s
finished-IsDone {aborted = aborted} {s = s} r e =
    let (delivered, started, torn) = Steps-drained aborted r in
    let (empty, same) = torn (rw e refl) in (e, sym same, rw (e, empty) refl)

-- From every state past the stop that a run of the function reaches, whatever comes in from outside: the
-- function's own lines and the settlements of dispatches bring it nearer to its end by one each, and no
-- delivery adds to what is left; and it never gets stuck: it has come to its end, with every dispatch that
-- was started settled and nothing left, or such a step is next.
pub stopped-finishes :
    {aborted : Bool} {s t : Server}
    → Steps (subscribed aborted) s
    → stopped s.phase ≡ true
    → (r : Steps s t) → (own_steps r + work_left t ≡ work_left s) × (IsDone t ⊎ Proceeds t)
stopped-finishes {t = t} before h r = (
  Steps-work r h,
  elim (phase-Proceeds t.phase t refl (Steps-stopped r h)) [
    | inl end ↦ inl (finished-IsDone (Steps-trans before r) end)
    | inr more ↦ inr more
  ],
)
