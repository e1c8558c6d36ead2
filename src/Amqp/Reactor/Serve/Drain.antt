-- ===== src/Amqp/Reactor/Serve/Drain.antt =====
-- The drain of `reactorServe` (amqp/reactor/runtime.ts): what has started finishes, and the run ends.
use axiam_typescript_sdk.Prelude.{
  ℕ, suc, ◌+◌, ◌≡◌, inl, inr, refl, ap, subst, Bool, true, false, List, [], ◌∷◌, arith, ◌==◌,
  ==_iff, Bool-cases, length, All,
}
use axiam_typescript_sdk.Amqp.Reactor.Serve.{
  Phase, racing, cancelling, draining, closing, finished, Server, has, drop, stopped, subscribed,
  on_message, on_settled, Step, message, settles, trigger, stop, cancelled, drained, closed, Steps,
  done, next,
}

-- What the phase says of the dispatches in flight.
abbrev Fits : Phase → List ℕ → Type 0
Fits racing ns = Unit {0}
Fits cancelling ns = Unit {0}
Fits (draining waiting) ns = All (λ n. has n waiting ≡ true) ns
Fits closing ns = ns ≡ []
Fits finished ns = ns ≡ []

record IsValid (s : Server) : Type 0 where
  fits : Fits s.phase s.in_flight
  dispatched : s.started ≡ s.settled + length s.in_flight
  accounted : s.delivered ≡ s.started + s.returned

pub length-drop : (n : ℕ) (ns : List ℕ) → has n ns ≡ true → suc (length (drop n ns)) ≡ length ns
length-drop n [] h = cc
length-drop n (m ∷ ns) h = ground (arith, length-drop n ns)

All-drop : (P : ℕ → Type 0) (n : ℕ) (ns : List ℕ) → All P ns → All P (drop n ns)
All-drop P n [] h = tt
All-drop P n (m ∷ ns) (p, h) = elim (Bool-cases (m == n)) [
  | inl hit ↦ rw hit h
  | inr miss ↦ rw miss (p, All-drop P n ns h)
]

All-has :
    (ns : List ℕ) (more : List ℕ)
    → ((n : ℕ) → has n ns ≡ true → has n more ≡ true)
    → All (λ n. has n more ≡ true) ns
All-has [] more h = tt
All-has (n ∷ ns) more h =
    (h n (ground (arith, ==_iff n n)), All-has ns more (λ k c. h k (ground arith)))

-- All those that were listed have settled, so none is left.
none_left :
    (waiting ns : List ℕ)
    → All (λ n. has n waiting ≡ true) ns
    → All (λ n. has n ns ≡ false) waiting
    → ns ≡ []
none_left waiting [] h k = refl
none_left waiting (n ∷ ns) (listed, h) k = absurd (clash waiting listed k)
  where
    clash : (ws : List ℕ) → has n ws ≡ true → All (λ w. has w (n ∷ ns) ≡ false) ws → ⊥
    clash [] listed k = cc
    clash (w ∷ ws) listed (p, k) = ground (arith, clash ws, ==_iff w n, ==_iff n w)

Fits-running : (p : Phase) (ns : List ℕ) → stopped p ≡ false → Fits p ns
Fits-running racing ns h = tt
Fits-running cancelling ns h = tt
Fits-running (draining waiting) ns h = cc
Fits-running closing ns h = cc
Fits-running finished ns h = cc

Fits-drop : (p : Phase) (n : ℕ) (ns : List ℕ) → Fits p ns → Fits p (drop n ns)
Fits-drop racing n ns h = tt
Fits-drop cancelling n ns h = tt
Fits-drop (draining waiting) n ns h = All-drop _ n ns h
Fits-drop closing n ns h = rw h refl
Fits-drop finished n ns h = rw h refl

subscribed-IsValid : (b : Bool) → IsValid (subscribed b)
subscribed-IsValid b = record { fits = tt; dispatched = omega arith; accounted = omega arith }

message-IsValid : (s : Server) → IsValid s → IsValid (on_message s)
unfolding on_message
message-IsValid s v = elim (Bool-cases (stopped s.phase)) [
  | inl past ↦
      rw past
        record { fits = v.fits; dispatched = v.dispatched; accounted = omega (arith, v.accounted) }
  | inr running ↦ rw running record {
    fits = Fits-running s.phase _ running;
    dispatched = omega (arith, v.dispatched);
    accounted = omega (arith, v.accounted);
  }
]

settled-IsValid :
    (s : Server) (n : ℕ) → has n s.in_flight ≡ true → IsValid s → IsValid (on_settled n s)
unfolding on_settled
settled-IsValid s n h v = record {
  fits = Fits-drop s.phase n s.in_flight v.fits;
  dispatched = omega (arith, v.dispatched, length-drop n s.in_flight h);
  accounted = v.accounted;
}

Step-IsValid : {s t : Server} → Step s t → IsValid s → IsValid t
Step-IsValid (message s) v = message-IsValid s v
Step-IsValid (settles s n h) v = settled-IsValid s n h v
Step-IsValid (trigger s) v = record {
  fits = v.fits;
  dispatched = v.dispatched;
  accounted = v.accounted;
}
Step-IsValid (stop s p t) v = record {
  fits = tt;
  dispatched = v.dispatched;
  accounted = v.accounted;
}
Step-IsValid (cancelled s p) v = record {
  fits = All-has s.in_flight s.in_flight (λ n h. h);
  dispatched = v.dispatched;
  accounted = v.accounted;
}
Step-IsValid (drained s waiting p gone) v = record {
  fits = none_left waiting s.in_flight (subst (λ q. Fits q s.in_flight) p v.fits) gone;
  dispatched = v.dispatched;
  accounted = v.accounted;
}
Step-IsValid (closed s p) v = record {
  fits = subst (λ q. Fits q s.in_flight) p v.fits;
  dispatched = v.dispatched;
  accounted = v.accounted;
}

Steps-IsValid : {s t : Server} → Steps s t → IsValid s → IsValid t
Steps-IsValid done v = v
Steps-IsValid (next r step) v = Step-IsValid step (Steps-IsValid r v)

-- The state that the function leaves behind: in the two `close` calls and at its end no dispatch is
-- running.
abbrev pub torn_down : Phase → Bool
torn_down closing = true
torn_down finished = true
torn_down _ = false

Fits-torn_down : (p : Phase) (ns : List ℕ) → torn_down p ≡ true → Fits p ns → ns ≡ []
Fits-torn_down racing ns h f = cc
Fits-torn_down cancelling ns h f = cc
Fits-torn_down (draining waiting) ns h f = cc
Fits-torn_down closing ns h f = f
Fits-torn_down finished ns h f = f

-- In every state that a run of the function reaches, each delivery was dispatched or given back to
-- the broker, each dispatch has settled or is in flight, and once the channel is being closed every
-- dispatch that was started has settled.
pub Steps-drained :
    (b : Bool) {t : Server}
    → Steps (subscribed b) t
    → (t.delivered ≡ t.started + t.returned)
      × (t.started ≡ t.settled + length t.in_flight)
      × (torn_down t.phase ≡ true → (t.in_flight ≡ []) × (t.started ≡ t.settled))
Steps-drained b {t} r =
    let v = Steps-IsValid r (subscribed-IsValid b) in
    (v.accounted, v.dispatched, λ h. empty v (Fits-torn_down t.phase t.in_flight h v.fits))
  where
    empty : IsValid t → t.in_flight ≡ [] → (t.in_flight ≡ []) × (t.started ≡ t.settled)
    empty v e = (e, omega (arith, v.dispatched, ap length e))
