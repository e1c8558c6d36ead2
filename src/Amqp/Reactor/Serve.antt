-- ===== src/Amqp/Reactor/Serve.antt =====
-- amqp/reactor/runtime.ts: `reactorServe`, from the subscription to the teardown.
-- A dispatch is a promise that settles some time after it has started; deliveries, settlements, the
-- abort signal, the closing of the connection and the lines of the function interleave as steps.
-- A dispatch, a cancellation or a close that never settles is a run that never takes its step.
-- Connecting is left out. A dispatch is named by the number of its delivery.
pub mod Drain
pub mod Finish
mod Tests
use axiam_typescript_sdk.Prelude.{
  ℕ, zero, suc, ◌+◌, ◌-◌, ◌*◌, ◌^◌, ◌≤◌, ◌<◌, min, max, ◌≡◌, ◌≢◌, ◌↔◌, ◌∙◌, ◌⊎◌, inl, inr, refl,
  sym, ap, subst, String, Bool, true, false, not, ◌&&◌, ◌||◌, List, [], ◌∷◌, ◌++◌, map, Option,
  none, some, arith, str_eq, eq_iff, ltb, leb, ◌==◌, if◌then◌else◌, ltb→lt, lt→ltb, leb→le, le→leb,
  ==_iff, Bool-cases, Option-cases, or_else, is_some, length, length-append, All, All-append, any,
  contains,
}

-- Where the function stands: in `Promise.race`, in `channel.cancel`, in `Promise.allSettled` over
-- the dispatches that were in flight, in the two `close` calls, and at its end.
pub data Phase : Type 0 where
  racing cancelling : Phase
  draining : (waiting : List ℕ) → Phase
  closing finished : Phase

-- `stopped` is what every phase past the race has set. The counts are of deliveries: all, those
-- dispatched, those whose dispatch has settled and those given back to the broker.
pub record Server : Type 0 where
  pub phase : Phase
  -- The signal was aborted, or the connection has closed.
  pub triggered : Bool
  pub in_flight : List ℕ
  pub delivered : ℕ
  pub started : ℕ
  pub settled : ℕ
  pub returned : ℕ

abbrev pub stopped : Phase → Bool
stopped racing = false
stopped _ = true

abbrev pub subscribed : Bool → Server
subscribed aborted = record {
  phase = racing;
  triggered = aborted;
  in_flight = [];
  delivered = 0;
  started = 0;
  settled = 0;
  returned = 0;
}

abbrev pub has : ℕ → List ℕ → Bool
has n [] = false
has n (m ∷ ms) = m == n || has n ms

abbrev pub drop : ℕ → List ℕ → List ℕ
drop n [] = []
drop n (m ∷ ms) = if m == n then ms else m ∷ drop n ms

-- The consumer's callback, on a message: a delivery past the stop goes back, `nack(msg, false, true)`.
pub on_message : Server → Server
on_message s =
    if stopped s.phase
    then record s { delivered = suc s.delivered; returned = suc s.returned }
    else record s {
      in_flight = s.delivered ∷ s.in_flight;
      delivered = suc s.delivered;
      started = suc s.started;
    }

-- The `finally` of a dispatch.
pub on_settled : ℕ → Server → Server
on_settled n s = record s { in_flight = drop n s.in_flight; settled = suc s.settled }

pub data Step : Server → Server → Type 0 where
  message : (s : Server) → Step s (on_message s)
  settles : (s : Server) (n : ℕ) → has n s.in_flight ≡ true → Step s (on_settled n s)
  trigger : (s : Server) → Step s (record s { triggered = true })
  -- The race is won: `stopped = true`, and the consumer is being cancelled.
  stop :
      (s : Server)
      → s.phase ≡ racing
      → s.triggered ≡ true
      → Step s (record s { phase = cancelling })
  -- Cancelled, or the cancellation failed: the dispatches in flight are listed.
  cancelled :
      (s : Server) → s.phase ≡ cancelling → Step s (record s { phase = draining s.in_flight })
  -- All those listed have settled.
  drained :
      (s : Server) (waiting : List ℕ)
      → s.phase ≡ draining waiting
      → All (λ n. has n s.in_flight ≡ false) waiting
      → Step s (record s { phase = closing })
  closed : (s : Server) → s.phase ≡ closing → Step s (record s { phase = finished })

pub data Steps (s : Server) : Server → Type 0 where
  done : Steps s s
  next : {t u : Server} → Steps s t → Step t u → Steps s u
