-- ===== src/Amqp/Consumer/Edge.antt =====
-- Replays against amqp/consumer.ts with its in-memory nonce store: the freshness window and the
-- life of a nonce meet at one millisecond, but for the time that a pass takes between its two clock
-- readings.
use axiam_typescript_sdk.Prelude.{
  ℕ, ◌+◌, ◌*◌, ◌≤◌, ◌<◌, ◌≡◌, inl, inr, ap, subst, String, false, List, [], ◌∷◌, Option, none, some,
  arith, ltb, ltb→lt, le→leb, Bool-cases, All,
}
use axiam_typescript_sdk.Prelude.Int.{ℤ, pos, negsuc, pos_part, neg_part, distance}
use axiam_typescript_sdk.Prelude.Dict.{Distinct}
use axiam_typescript_sdk.Json.{Json, property, as_string}
use axiam_typescript_sdk.Amqp.Platform.{Platform}
use axiam_typescript_sdk.Amqp.Nonce.{SeenUntil, in_memory, check_and_record}
use axiam_typescript_sdk.Amqp.Nonce.Replay.{
  Check, run, accepted_once, check_and_record_iff, until_accepted, check_and_record-Distinct,
}
use axiam_typescript_sdk.Amqp.Consumer.{
  ReplayRejectReason, is_fresh_at, record_nonce, issued_of, check_replay_protection,
}
use axiam_typescript_sdk.Amqp.Consumer.Handler.{IsCurrent, check-IsCurrent}

All-before : (cs : List Check) {u v : ℕ} → All (λ c. c.0 ≤ u) cs → u < v → All (λ c. c.0 < v) cs
All-before [] h lt = tt
All-before (c ∷ cs) (first, rest) lt = (omega arith, All-before cs rest lt)

-- A nonce that is accepted twice is accepted again only when its TTL is over.
not_before :
    (now now' skew_ms : ℕ) (nonce : String) (seen : SeenUntil) (between : List Check)
    → Distinct seen
    → (check_and_record now nonce (skew_ms * 2) seen).1 ≡ false
    → All (λ c. c.0 ≤ now') between
    → (check_and_record now' nonce
        (skew_ms * 2)
        (run (check_and_record now nonce (skew_ms * 2) seen).0 between)).1
      ≡ false
    → now + skew_ms * 2 ≤ now'
not_before now now' skew_ms nonce seen between h new monotone again =
    elim (Bool-cases (ltb now' (now + skew_ms * 2))) [
      | inl soon ↦
          let lt = ltb→lt now' (now + skew_ms * 2) soon in
          absurd (
            cc (
              again,
              accepted_once seen now nonce (skew_ms * 2) between now' (skew_ms * 2) h new
                  (All-before between monotone lt) lt,
            ))
      | inr late ↦ ground arith
    ]

module _ (platform : Platform) where
  -- The gates, for one body over the in-memory store.
  abbrev pub gates :
      (now stored_at skew_ms : ℕ) → Json → SeenUntil → SeenUntil × Option ReplayRejectReason
  gates now stored_at skew_ms body seen =
      check_replay_protection platform in_memory now stored_at skew_ms body seen

  gates_of_IsCurrent :
      (now stored_at skew_ms : ℕ) (body : Json) (seen : SeenUntil)
      → (v : IsCurrent platform in_memory now stored_at skew_ms seen body)
      → gates now stored_at skew_ms body seen
        ≡ ((check_and_record stored_at v.nonce (skew_ms * 2) seen).0, none)
  unfolding check_replay_protection is_fresh_at record_nonce
  gates_of_IsCurrent now stored_at skew_ms body seen v =
      rw (v.version, v.dated, v.has_nonce, le→leb _ _ v.fresh, v.nonempty)
        (ground (arith, v.unseen))

  -- The first pass at the opening of the window, and the second at its end, each but for the time from `now'`
  -- to `stored_at'`.
  abbrev pub NearEdges : (issued : ℤ) (skew_ms now now' stored_at' : ℕ) → Type 0
  NearEdges issued skew_ms now now' stored_at' =
      (pos_part issued ≤ now + skew_ms + neg_part issued)
      × (now + skew_ms + now' + neg_part issued ≤ pos_part issued + stored_at')
      × (now' + neg_part issued ≤ pos_part issued + skew_ms)
      × (pos_part issued + skew_ms ≤ stored_at' + neg_part issued)

  -- With no such time the edges are met exactly.
  NearEdges-exact :
      (issued : ℤ) (skew_ms now now' : ℕ)
      → now + skew_ms * 2 ≤ now'
      → NearEdges issued skew_ms now now' now'
      → (issued ≡ pos (now + skew_ms)) × (now' ≡ now + skew_ms * 2)
  NearEdges-exact (pos a) skew_ms now now' late edge = ground arith
  NearEdges-exact (negsuc a) skew_ms now now' late edge = absurd (omega arith)

  window :
      (i : ℤ) (skew_ms now stored_at now' stored_at' : ℕ)
      → now ≤ stored_at
      → distance i now ≤ skew_ms
      → distance i now' ≤ skew_ms
      → stored_at + skew_ms * 2 ≤ stored_at'
      → NearEdges i skew_ms now now' stored_at'
  window (pos a) skew_ms now stored_at now' stored_at' later h k late = ground arith
  window (negsuc a) skew_ms now stored_at now' stored_at' later h k late = ground arith

  -- A body that passes the gates twice over a store of distinct nonces, the first time with its nonce check no
  -- earlier than its freshness test, and with any other deliveries in between at clock readings no later than the
  -- nonce check of the second, does so with its nonce checks at least twice the skew apart and only at the two
  -- edges of its window, but for the time that the second pass takes from its freshness test to its nonce check.
  pub replay_only_at_edge :
      (skew_ms now stored_at now' stored_at' : ℕ) (body : Json) (seen : SeenUntil)
      (between : List Check)
      → Distinct seen
      → now ≤ stored_at
      → (gates now stored_at skew_ms body seen).1 ≡ none
      → All (λ c. c.0 ≤ stored_at') between
      → (gates now' stored_at' skew_ms body
          (run (gates now stored_at skew_ms body seen).0 between)).1
        ≡ none
      → (issued : ℤ) × (issued_of platform in_memory (as_string (property "issued_at" body))
          ≡ some issued)
        × (stored_at + skew_ms * 2 ≤ stored_at')
        × NearEdges issued skew_ms now now' stored_at'
  replay_only_at_edge skew_ms now stored_at now' stored_at' body seen between h later first monotone
        second =
      let v = check-IsCurrent platform in_memory now stored_at skew_ms body seen first in
      let after = (check_and_record stored_at v.nonce (skew_ms * 2) seen).0 in
      let second' =
        subst (λ r. (gates now' stored_at' skew_ms body (run r.0 between)).1 ≡ none)
          (gates_of_IsCurrent now stored_at skew_ms body seen v) second in
      let w =
        check-IsCurrent platform in_memory now' stored_at' skew_ms body (run after between)
          second' in
      let same_issued : w.issued ≡ v.issued = cc (v.dated, w.dated) in
      let same_nonce : w.nonce ≡ v.nonce = cc (v.has_nonce, w.has_nonce) in
      let again : (check_and_record stored_at' v.nonce (skew_ms * 2) (run after between)).1
          ≡ false =
        subst (λ n. (check_and_record stored_at' n (skew_ms * 2) (run after between)).1 ≡ false)
          same_nonce w.unseen in
      let late : stored_at + skew_ms * 2 ≤ stored_at' =
        not_before stored_at stored_at' skew_ms v.nonce seen between h v.unseen monotone again in
      (
        v.issued,
        v.dated,
        late,
        window v.issued skew_ms now stored_at now' stored_at' later v.fresh
            (subst (λ i. distance i now' ≤ skew_ms) same_issued w.fresh) late,
      )

  -- The edge is open: a body that is accepted at exactly its issue time less the skew is accepted
  -- again at exactly its issue time plus the skew, for every skew and nonce, and every store of
  -- distinct nonces, where the clock reads the same twice in each pass.
  pub edge_is_open :
      (skew_ms now : ℕ) (body : Json) (seen : SeenUntil)
      → Distinct seen
      → issued_of platform in_memory (as_string (property "issued_at" body))
        ≡ some (pos (now + skew_ms))
      → (gates now now skew_ms body seen).1 ≡ none
      → (gates
          (now + skew_ms * 2)
          (now + skew_ms * 2)
          skew_ms
          body
          (gates now now skew_ms body seen).0).1
        ≡ none
  edge_is_open skew_ms now body seen h dated first =
      let v = check-IsCurrent platform in_memory now now skew_ms body seen first in
      let after = (check_and_record now v.nonce (skew_ms * 2) seen).0 in
      let answer =
        check_and_record_iff (now + skew_ms * 2) v.nonce (skew_ms * 2) after
          (check_and_record-Distinct now v.nonce (skew_ms * 2) seen h) in
      rw (gates_of_IsCurrent now now skew_ms body seen v) (
        ap (λ r. r.1)
          (gates_of_IsCurrent (now + skew_ms * 2) (now + skew_ms * 2) skew_ms body after (record {
            version = v.version;
            issued = pos (now + skew_ms);
            dated = dated;
            fresh = ground arith;
            nonce = v.nonce;
            has_nonce = v.has_nonce;
            nonempty = v.nonempty;
            unseen = ground (arith, answer, until_accepted now v.nonce (skew_ms * 2) seen v.unseen);
          })))
