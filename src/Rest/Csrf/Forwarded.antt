-- ===== src/Rest/Csrf/Forwarded.antt =====
-- Which requests carry a CSRF token, and which token (rest/interceptors.ts, core/csrf.ts).
use Prim.Native.Char.{code}
use Prim.Native.String
use Prim.Native.String.append
use axiam_typescript_sdk.Prelude.{
  ◌≡◌, ◌≢◌, ◌↔◌, ◌∙◌, inl, inr, refl, sym, ap, String, true, false, Option, none, some, Bool-cases,
  ==_iff, or_else,
}
use axiam_typescript_sdk.Prelude.Texts.{is_empty, is_empty_iff}
use axiam_typescript_sdk.Prelude.Results.{Result, ok, err, ◌>>=◌}
use axiam_typescript_sdk.Rest.Csrf.{
  Platform, UriError, strip, up_to_semicolon, decoded, csrf_cookie, is_csrf_method,
  read_csrf_cookie, csrf_header_for_method, is_foreign_host, is_oauth2_endpoint, cookies_of,
  non_empty, csrf_token_for,
}

strip-append : (p s : String) → strip p (String.◌++◌ p s) ≡ some s
strip-append String.[] s = ap some (append.nil s)
strip-append (String.◌∷◌ c p) s =
    rw (append.cons c p s, (==_iff (code c) (code c)).1 refl) (strip-append p s)

csrf_cookie-token :
    (token : String) → csrf_cookie (String.◌++◌ "axiam_csrf=" token) ≡ some (up_to_semicolon token)
unfolding csrf_cookie
csrf_cookie-token token = rw (strip-append "axiam_csrf=" token) refl

filled_iff :
    (header : Option String) (t : String)
    → (non_empty header ≡ some t) ↔ ((header ≡ some t) × (t ≢ ""))
filled_iff none t = (λ h. cc, λ h. cc (h.0))
filled_iff (some v) t = elim (Bool-cases (is_empty v)) [
  | inl blank ↦ rw blank (
    λ h. cc,
    λ h. cc ((is_empty_iff v).1 (λ e. h.1 (let same : v ≡ t = cc (h.0) in sym same ∙ e))),
  )
  | inr filled ↦
      rw filled
        (λ h. (h, (is_empty_iff t).0 (let same : v ≡ t = cc in rw (← same) filled)), λ h. h.0)
]

decoded_iff : (o : Option String) (t : String) → (decoded o ≡ ok (some t)) ↔ (o ≡ some t)
decoded_iff none t = (λ h. cc, λ h. cc)
decoded_iff (some v) t = (λ h. cc, λ h. cc)

-- The header that is set, of the one that was read.
set_iff :
    (read : Result UriError (Option String)) (t : String)
    → ((read >>= λ header. ok (non_empty header)) ≡ ok (some t)) ↔ ((read ≡ ok (some t)) × (t ≢ ""))
set_iff (err e) t = (λ h. cc, λ h. cc (h.0))
set_iff (ok header) t = (
  λ h. let (same, given) = (filled_iff header t).0 (cc) in (ap ok same, given),
  λ h. ap ok ((filled_iff header t).1 (cc (h.0), h.1)),
)

module _ (platform : Platform) where
  open platform use {decode_uri_component}

  -- The session holds a token, which decodes to this one.
  abbrev pub Held : Option String → String → Type 0
  Held token t =
      (held : String) × (token ≡ some held)
      × (held ≢ "")
      × (decode_uri_component (up_to_semicolon held) ≡ some t)

  read-held :
      (held : String)
      → is_empty held ≡ false
      → read_csrf_cookie platform (cookies_of none (some held))
        ≡ decoded (decode_uri_component (up_to_semicolon held))
  unfolding read_csrf_cookie
  read-held held filled = rw (filled, read_csrf_cookie, csrf_cookie-token held) refl

  read_iff :
      (token : Option String) (t : String)
      → (read_csrf_cookie platform (cookies_of none token) ≡ ok (some t)) ↔ Held token t
  unfolding read_csrf_cookie csrf_cookie
  read_iff none t = (λ h. cc, λ h. cc (h.1))
  read_iff (some held) t = elim (Bool-cases (is_empty held)) [
    | inl blank ↦ rw blank (
      λ h. cc,
      λ (token, same, given, decodes).
          let e : held ≡ token = cc (same) in
          cc (blank, ap is_empty e, (is_empty_iff token).1 given),
    )
    | inr filled ↦ (
      λ h. (
        held,
        refl,
        (is_empty_iff held).0 filled,
        (decoded_iff _ t).0 (sym (read-held held filled) ∙ h),
      ),
      λ (token, same, given, decodes).
          let e : held ≡ token = cc (same) in
          read-held held filled
          ∙ (decoded_iff _ t).1 (ap (λ x. decode_uri_component (up_to_semicolon x)) e ∙ decodes),
    )
  ]

  header_iff :
      (method : String) (token : Option String) (t : String)
      → (csrf_header_for_method platform method (cookies_of none token) ≡ ok (some t))
        ↔ ((is_csrf_method method ≡ true) × Held token t)
  unfolding csrf_header_for_method
  header_iff method token t = elim (Bool-cases (is_csrf_method method)) [
    | inl changes ↦ rw changes (λ h. (refl, (read_iff token t).0 h), λ h. (read_iff token t).1 h.1)
    | inr safe ↦ rw safe (λ h. cc, λ h. cc (h.0))
  ]

  -- Without a document, a request carries a CSRF token exactly if its URL is of the base's host and of no
  -- OAuth2 endpoint, its method changes state, and the session holds a token; what it carries is that token, up
  -- to a semicolon, decoded, if it is not empty.
  pub csrf_token_for_iff :
      (base : String) (token url method : Option String) (t : String)
      → (csrf_token_for platform base none token url method ≡ ok (some t)) ↔ (
          (is_foreign_host platform base url ≡ false)
          × (is_oauth2_endpoint platform base url ≡ false)
          × (is_csrf_method (or_else method "get") ≡ true)
          × Held token t
          × (t ≢ ""))
  unfolding csrf_token_for
  csrf_token_for_iff base token url method t =
      elim (Bool-cases (is_foreign_host platform base url)) [
        | inl foreign ↦ rw foreign (λ h. cc, λ h. cc (h.0))
        | inr own ↦ rw own (elim (Bool-cases (is_oauth2_endpoint platform base url)) [
          | inl oauth2 ↦ rw oauth2 (λ h. cc, λ h. cc (h.1))
          | inr other ↦ rw other (
            λ h.
                let (read, given) = (set_iff _ t).0 h in
                let (changes, held) = (header_iff (or_else method "get") token t).0 read in
                (refl, refl, changes, held, given),
            λ (_, _, changes, held, given).
                (set_iff _ t).1
                  ((header_iff (or_else method "get") token t).1 (changes, held), given),
          )
        ])
      ]
