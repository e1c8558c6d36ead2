-- ===== src/Amqp/Reactor/Serve/Tests.antt =====
-- A run of `reactorServe` (amqp/reactor/runtime.ts) with two deliveries, one of them past the stop.
use axiam_typescript_sdk.Prelude.{◌+◌, ◌≡◌, ◌⊎◌, refl, subst, true, false, [], ◌∷◌, length}
use axiam_typescript_sdk.Amqp.Reactor.Serve.{
  racing, cancelling, Server, subscribed, on_message, message, trigger, stop, Steps, done, next,
}
use axiam_typescript_sdk.Amqp.Reactor.Serve.Drain.{Steps-drained, torn_down}
use axiam_typescript_sdk.Amqp.Reactor.Serve.Finish.{
  own_steps, work_left, IsDone, Proceeds, stopped-finishes,
}

-- One dispatch is in flight, and the signal has been aborted.
abbrev aborted : Server
aborted = record {
  phase = racing;
  triggered = true;
  in_flight = 0 ∷ [];
  delivered = 1;
  started = 1;
  settled = 0;
  returned = 0;
}

abbrev halted : Server
halted = record aborted { phase = cancelling }

-- The second delivery goes back.
abbrev refused : Server
refused = record halted { delivered = 2; returned = 1 }

message_first : on_message (record (subscribed false) { triggered = true }) ≡ aborted
unfolding on_message
message_first = refl

message_late : on_message halted ≡ refused
unfolding on_message
message_late = refl

refusal : Steps halted refused
refusal = subst (Steps halted) message_late (next done (message halted))

to_refused : Steps (subscribed false) refused
to_refused =
    let first : Steps (subscribed false) aborted =
      subst (Steps (subscribed false)) message_first (next (next done (trigger _)) (message _)) in
    subst (Steps (subscribed false)) message_late (next (next first (stop _ refl refl)) (message _))

Steps-drained_example :
    (refused.delivered ≡ refused.started + refused.returned)
    × (refused.started ≡ refused.settled + length refused.in_flight)
    × (torn_down refused.phase ≡ true
        → (refused.in_flight ≡ []) × (refused.started ≡ refused.settled))
Steps-drained_example = Steps-drained false to_refused

reaches_halted : Steps (subscribed false) halted
reaches_halted =
    next (subst (Steps (subscribed false)) message_first (next (next done (trigger _)) (message _)))
      (stop _ refl refl)

stopped-finishes_example :
    (own_steps refusal + work_left refused ≡ work_left halted) × (IsDone refused ⊎ Proceeds refused)
stopped-finishes_example = stopped-finishes reaches_halted refl refusal
