-- ===== src/Amqp/Reactor/Protocol/Verified.antt =====
-- What a verified reactor event has passed (amqp/reactor/protocol.ts).
use axiam_typescript_sdk.Prelude.{
  ℕ, ◌≤◌, ◌≡◌, ◌↔◌, inl, inr, refl, subst, String, true, false, Option, none, some, arith, leb→le,
  le→leb, Option-cases,
}
use axiam_typescript_sdk.Prelude.Int.{ℤ, pos, distance, ltb_ℤ}
use axiam_typescript_sdk.Prelude.Dict
use axiam_typescript_sdk.Json.{as_string}
use axiam_typescript_sdk.Amqp.Platform.{Platform}
use axiam_typescript_sdk.Amqp.Reactor.Protocol.{
  ReactorEvent, verified, Body, integral, decode_event, mac_holds, check_shape, check_mac,
  verify_event, dated_fresh, is_fresh, ◌>>=◌, as_number, as_object,
}

module _ (platform : Platform) where
  open platform use {Key, parse_date}

  -- The event is the body's, its version is 2 or higher, the MAC over the canonical body holds, and
  -- its issue time lies within the skew in both directions.
  pub record IsVerified (key : Key) (now_ms skew_ms : ℕ) (body : Body) (event : ReactorEvent)
      : Type 0 where
    pub version : integral (Dict.get "key_version" body) ≡ some event.key_version
    pub current : ltb_ℤ event.key_version (pos 2) ≡ false
    pub signed : as_string (Dict.get "hmac_signature" body) ≡ some event.hmac_signature
    pub authentic : mac_holds platform key body event.hmac_signature ≡ true
    pub decoded : decode_event event.key_version event.hmac_signature body ≡ some event
    pub issued : ℤ
    pub dated : parse_date event.issued_at ≡ some issued
    pub fresh : distance issued now_ms ≤ skew_ms

  bind_some :
      {A B : Type 0} (m : Option A) (f : A → Option B) {b : B}
      → (m >>= f) ≡ some b
      → (a : A) × (m ≡ some a) × (f a ≡ some b)
  bind_some none f e = cc
  bind_some (some a) f e = (a, refl, e)

  decode_event-fields :
      (version : ℤ) (signature : String) (body : Body) (event : ReactorEvent)
      → decode_event version signature body ≡ some event
      → (event.key_version ≡ version) × (event.hmac_signature ≡ signature)
  unfolding decode_event
  decode_event-fields version signature body event e =
      let (a, _, e) = bind_some (as_string (Dict.get "tenant_id" body)) _ e in
      let (b, _, e) = bind_some (as_string (Dict.get "event" body)) _ e in
      let (c, _, e) = bind_some (as_string (Dict.get "correlation_id" body)) _ e in
      let (d, _, e) = bind_some (as_string (Dict.get "nonce" body)) _ e in
      let (f, _, e) = bind_some (as_string (Dict.get "issued_at" body)) _ e in
      let (g, _, e) = bind_some (as_number (Dict.get "timeout_ms" body)) _ e in
      let (h, _, e) = bind_some (as_object (Dict.get "payload" body)) _ e in ground arith

  fresh_cases :
      (now_ms skew_ms : ℕ) (o : Option ℤ)
      → dated_fresh platform now_ms skew_ms o ≡ true
      → (i : ℤ) × (o ≡ some i) × (distance i now_ms ≤ skew_ms)
  unfolding dated_fresh is_fresh
  fresh_cases now_ms skew_ms none h = cc
  fresh_cases now_ms skew_ms (some i) h = (i, refl, leb→le _ _ h)

  module _ (key : Key) (now_ms skew_ms : ℕ) (body : Body) (event : ReactorEvent) where
    check_shape-IsVerified :
        (version : ℤ) (signature : String)
        → integral (Dict.get "key_version" body) ≡ some version
        → ltb_ℤ version (pos 2) ≡ false
        → as_string (Dict.get "hmac_signature" body) ≡ some signature
        → mac_holds platform key body signature ≡ true
        → check_shape platform version signature body now_ms skew_ms ≡ verified event
        → IsVerified key now_ms skew_ms body event
    unfolding check_shape
    check_shape-IsVerified version signature has_version current has_signature authentic e =
        elim (Option-cases (decode_event version signature body)) [
          | inl none_ ↦ absurd (ground (arith, none_))
          | inr (found, decoded) ↦
              let same : found ≡ event = ground (arith, decoded) in
              let (v, s) = decode_event-fields version signature body found decoded in
              let (issued, dated, fresh) =
                fresh_cases now_ms skew_ms (parse_date found.issued_at) (ground (arith, decoded)) in
              subst (IsVerified key now_ms skew_ms body) same (record {
                version = rw v has_version;
                current = rw v current;
                signed = rw s has_signature;
                authentic = rw s authentic;
                decoded = simp (v, s) decoded;
                issued = issued;
                dated = dated;
                fresh = fresh;
              })
        ]

    check_mac-IsVerified :
        (version : ℤ)
        → integral (Dict.get "key_version" body) ≡ some version
        → ltb_ℤ version (pos 2) ≡ false
        → check_mac platform key version body now_ms skew_ms ≡ verified event
        → IsVerified key now_ms skew_ms body event
    unfolding check_mac
    check_mac-IsVerified version has_version current e =
        elim (Option-cases (as_string (Dict.get "hmac_signature" body))) [
          | inl unsigned ↦ absurd (ground (arith, unsigned))
          | inr (signature, signed) ↦
              check_shape-IsVerified version signature has_version current signed
                (ground (arith, signed)) (ground (arith, signed))
        ]

    -- An event that is handed on has passed every check, and every event that passes them is.
    pub verify_event_iff :
        (verify_event platform body key now_ms skew_ms ≡ verified event)
        ↔ IsVerified key now_ms skew_ms body event
    unfolding verify_event check_mac check_shape dated_fresh is_fresh
    verify_event_iff = (
      (λ e. elim (Option-cases (integral (Dict.get "key_version" body))) [
        | inl absent ↦ absurd (ground (arith, absent))
        | inr (version, found) ↦
            check_mac-IsVerified version found (ground (arith, found)) (ground (arith, found))
      ]),
      λ v.
          rw (v.version, verify_event)
            (rw v.current (
              rw (v.signed, check_mac)
                (rw v.authentic (rw (v.decoded, check_shape) (rw (v.dated, le→leb _ _ v.fresh)))))),
    )
