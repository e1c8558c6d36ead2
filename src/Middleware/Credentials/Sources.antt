-- ===== src/Middleware/Credentials/Sources.antt =====
-- Where a credential comes from, and what the double submit wants (middleware/cookieHeader.ts).
use axiam_typescript_sdk.Prelude.{
  ℕ, ◌≡◌, ◌≢◌, ◌↔◌, ◌∙◌, ◌⊎◌, inl, inr, refl, sym, ap, String, true, List, Option, none, some,
  arith, Bool-cases,
}
use axiam_typescript_sdk.Prelude.Dict
use axiam_typescript_sdk.Prelude.Texts.{is_empty, is_empty_iff}
use axiam_typescript_sdk.Amqp.Hmac.RoundTrip.{same_bytes_iff}
use axiam_typescript_sdk.Middleware.Credentials.{
  parse_cookie_header, access_cookie_name, csrf_cookie_name, cookie, header, ExtractedCredential,
  filled, bearer_token, either_source, same_submitted, extract_credential, is_csrf_valid,
}

pub filled_iff : (o : Option String) (t : String) → (filled o ≡ some t) ↔ ((o ≡ some t) × (t ≢ ""))
filled_iff none t = (λ h. cc, λ h. cc (h.0))
filled_iff (some s) t = elim (Bool-cases (is_empty s)) [
  | inl blank ↦ rw blank (
    λ h. cc,
    λ h. let same : s ≡ t = cc (h.0) in cc (blank, (is_empty_iff s).1 (λ e. h.1 (sym same ∙ e))),
  )
  | inr full ↦
      rw full (λ h. (h, λ e. (is_empty_iff s).0 full (let same : s ≡ t = cc in same ∙ e)), λ h. h.0)
]

same_submitted_iff :
    (utf8 : String → List ℕ) (o p : Option String)
    → (same_submitted utf8 o p ≡ true)
      ↔ ((r : String) × (e : String) × (o ≡ some r) × (p ≡ some e) × (utf8 r ≡ utf8 e))
unfolding same_submitted
same_submitted_iff utf8 none p = (λ h. cc, λ h. cc (h.2))
same_submitted_iff utf8 (some r) none = (λ h. cc, λ h. cc (h.3))
same_submitted_iff utf8 (some r) (some e) = (
  λ h. (r, e, refl, refl, (same_bytes_iff _ _).0 h),
  λ h.
      let one : r ≡ h.0 = cc (h.2) in
      let two : e ≡ h.1 = cc (h.3) in
      (same_bytes_iff _ _).1 (ap utf8 one ∙ h.4 ∙ ap utf8 (sym two)),
)

-- The double submit holds exactly if the header and the cookie are both there, neither is empty, and
-- they are the same bytes.
pub is_csrf_valid_iff :
    (utf8 : String → List ℕ) (cookie_header csrf_header : Option String)
    → (is_csrf_valid utf8 cookie_header csrf_header ≡ true) ↔ (
        (received : String) × (expected : String) × ((csrf_header ≡ some received)
          × (received ≢ ""))
        × ((Dict.get csrf_cookie_name (parse_cookie_header cookie_header) ≡ some expected)
            × (expected ≢ ""))
        × (utf8 received ≡ utf8 expected))
unfolding is_csrf_valid
is_csrf_valid_iff utf8 cookie_header csrf_header =
    let held = Dict.get csrf_cookie_name (parse_cookie_header cookie_header) in
    let known = same_submitted_iff utf8 (filled csrf_header) (filled held) in
    (
      λ h.
          let (r, e, sent, there, same) = known.0 h in
          (r, e, (filled_iff csrf_header r).0 sent, (filled_iff held e).0 there, same),
      λ h. known.1 (h.0, h.1, (filled_iff csrf_header h.0).1 h.2, (filled_iff held h.1).1 h.3, h.4),
    )

-- The token and its source, of what the two headers have.
abbrev pub IsFrom : Option String → Option String → ExtractedCredential → Type 0
IsFrom access bearer c =
    ((c.source ≡ cookie) × (access ≡ some c.token))
    ⊎ ((c.source ≡ header) × (access ≡ none) × (bearer ≡ some c.token))

either_source_iff :
    (access bearer : Option String) (c : ExtractedCredential)
    → (either_source access bearer ≡ some c) ↔ IsFrom access bearer c
unfolding either_source
either_source_iff (some t) bearer c = (
  λ h. inl (ground (arith, h), ground (arith, h)),
  λ h. elim h [ inl e ↦ ground (arith, e.0, e.1) | inr e ↦ cc (e.1) ],
)
either_source_iff none none c = (λ h. cc, λ h. elim h [ inl e ↦ cc (e.1) | inr e ↦ cc (e.2) ])
either_source_iff none (some t) c = (
  λ h. inr (ground (arith, h), refl, ground (arith, h)),
  λ h. elim h [ inl e ↦ cc (e.1) | inr e ↦ ground (arith, e.0, e.2) ],
)

-- A credential is the access cookie's where that is there and not empty, and only otherwise the bearer
-- token of the `Authorization` header; it says which.
pub extract_credential_iff :
    (cookie_header auth_header : Option String) (c : ExtractedCredential)
    → (extract_credential cookie_header auth_header ≡ some c)
      ↔ IsFrom
          (filled (Dict.get access_cookie_name (parse_cookie_header cookie_header)))
          (bearer_token auth_header)
          c
unfolding extract_credential
extract_credential_iff cookie_header auth_header c = either_source_iff _ _ c
