-- ===== src/Node/Webhook/Fields.antt =====
-- Which signature headers are read (node/webhook.ts).
use axiam_typescript_sdk.Prelude.{
  ℕ, suc, ◌≡◌, ◌≢◌, ◌↔◌, ◌∙◌, inl, inr, refl, sym, ap, String, false, List, [], ◌∷◌, ◌++◌, Option,
  none, some, arith, str_eq, eq_iff, ◌==◌, if◌then◌else◌, ==_iff, Bool-cases, Option-cases, length,
  length-append,
}
use axiam_typescript_sdk.Prelude.Texts.{trim, cut, split_on}
use axiam_typescript_sdk.Prelude.Results.{ok}
use mathlib.Core.Path.{ap₂}
use mathlib.Core.List.{append_assoc, append-nil}
use axiam_typescript_sdk.Node.Webhook.{
  Parsed, add_field, read_piece, read_pieces, accept_fields, parse_signature_header,
}

-- The value that a piece gives to a key, if it does.
abbrev value_of : String → Option (String × String) → List String
value_of key none = []
value_of key (some (k, v)) = if str_eq (trim k) key then trim v ∷ [] else []

-- The values that the pieces give to a key, in order.
abbrev pub values : String → List String → List String
values key [] = []
values key (piece ∷ pieces) = value_of key (cut b'=' (trim piece)) ++ values key pieces

abbrev last? : List String → Option String
last? [] = none
last? (x ∷ []) = some x
last? (x ∷ y ∷ xs) = last? (y ∷ xs)

last?-append : (xs : List String) (v : String) → last? (xs ++ v ∷ []) ≡ some v
last?-append [] v = refl
last?-append (x ∷ []) v = refl
last?-append (x ∷ y ∷ xs) v = last?-append (y ∷ xs) v

-- The variables, of the values read so far.
abbrev state_of : List String → List String → Parsed
state_of ts cs = record { t = last? ts; t_count = length ts; v1 = cs }

add_t :
    (v : String) (ts cs : List String)
    → add_field "t" v (state_of ts cs) ≡ state_of (ts ++ v ∷ []) cs
unfolding add_field
add_t v ts cs = λ i. record {
  t = sym (last?-append ts v) i;
  t_count = sym (length-append ts (v ∷ [])) i;
  v1 = cs;
}

add_other :
    (key v : String) (ts cs : List String)
    → str_eq key "t" ≡ false
    → add_field key v (state_of ts cs) ≡ state_of ts (if str_eq key "v1" then cs ++ v ∷ [] else cs)
unfolding add_field
add_other key v ts cs other =
    rw other (elim (Bool-cases (str_eq key "v1")) [
      | inl v1_ ↦ rw v1_ refl
      | inr ignored ↦ rw ignored refl
    ])

add_field-values :
    (k v : String) (ts cs : List String)
    → add_field (trim k) (trim v) (state_of ts cs)
      ≡ state_of (ts ++ value_of "t" (some (k, v))) (cs ++ value_of "v1" (some (k, v)))
add_field-values k v ts cs = elim (Bool-cases (str_eq (trim k) "t")) [
  | inl t_ ↦
      let key : trim k ≡ "t" = (eq_iff (trim k) "t").0 t_ in
      rw key (add_t (trim v) ts cs ∙ ap (state_of (ts ++ trim v ∷ [])) (sym (append-nil cs)))
  | inr other ↦
      add_other (trim k) (trim v) ts cs other ∙ (elim (Bool-cases (str_eq (trim k) "v1")) [
        | inl v1_ ↦ rw (other, v1_) (rw (append-nil ts) refl)
        | inr ignored ↦ rw (other, ignored) (rw (append-nil ts, append-nil cs) refl)
      ])
]

read_piece-values :
    (p : String) (ts cs : List String)
    → read_piece p (state_of ts cs)
      ≡ state_of (ts ++ value_of "t" (cut b'=' (trim p))) (cs ++ value_of "v1" (cut b'=' (trim p)))
unfolding read_piece
read_piece-values p ts cs = elim (Option-cases (cut b'=' (trim p))) [
  | inl bare ↦ rw (bare, read_piece) (rw (append-nil ts, append-nil cs) refl)
  | inr (parts, found) ↦ rw (found, read_piece) (add_field-values parts.0 parts.1 ts cs)
]

read_pieces-values :
    (ps ts cs : List String)
    → read_pieces ps (state_of ts cs) ≡ state_of (ts ++ values "t" ps) (cs ++ values "v1" ps)
unfolding read_pieces
read_pieces-values [] ts cs = rw (append-nil ts, append-nil cs) refl
read_pieces-values (p ∷ ps) ts cs =
    let t = value_of "t" (cut b'=' (trim p)) in
    let c = value_of "v1" (cut b'=' (trim p)) in
    ap (read_pieces ps) (read_piece-values p ts cs)
    ∙ read_pieces-values ps (ts ++ t) (cs ++ c)
    ∙ ap₂ state_of (append_assoc ts t (values "t" ps)) (append_assoc cs c (values "v1" ps))

-- More than one value is refused.
two_refused :
    (last : Option String) (n : ℕ) (cs : List String) (t : String) (v1 : List String)
    → accept_fields last (suc (suc n)) cs ≢ ok (t, v1)
unfolding accept_fields
two_refused none n cs t v1 h = cc
two_refused (some s) n [] t v1 h = cc
two_refused (some s) n (c ∷ cs) t v1 h = elim (Bool-cases (suc (suc n) == 1)) [
  | inl one ↦ absurd (ground (arith, (==_iff (suc (suc n)) 1).0 one))
  | inr more ↦ ground (arith, more, h)
]

accept_fields_iff :
    (ts cs v1 : List String) (t : String)
    → (accept_fields (last? ts) (length ts) cs ≡ ok (t, v1))
      ↔ ((ts ≡ t ∷ []) × (cs ≡ v1) × (v1 ≢ []))
unfolding accept_fields
accept_fields_iff [] cs v1 t = (λ h. cc, λ h. cc (h.0))
accept_fields_iff (x ∷ []) [] v1 t = (λ h. cc, λ h. absurd (h.2 (sym h.1)))
accept_fields_iff (x ∷ []) (c ∷ cs) v1 t = (
  λ h. (ground (arith, h), ground (arith, h), λ e. ground (arith, h, e)),
  λ h. ground (arith, h.0, h.1),
)
accept_fields_iff (x ∷ y ∷ xs) cs v1 t =
    (λ h. absurd (two_refused (last? (x ∷ y ∷ xs)) (length xs) cs t v1 h), λ h. cc (h.0))

-- A header is read exactly if its pieces give one value to `t`, and at least one to `v1`; what is read
-- are those values.
pub parse_signature_header_iff :
    (header t : String) (v1 : List String)
    → (parse_signature_header header ≡ ok (t, v1)) ↔ (
        (values "t" (split_on b',' header) ≡ t ∷ [])
        × (values "v1" (split_on b',' header) ≡ v1)
        × (v1 ≢ []))
unfolding parse_signature_header
parse_signature_header_iff header t v1 = rw (read_pieces-values (split_on b',' header) [] []) (
    accept_fields_iff (values "t" (split_on b',' header)) (values "v1" (split_on b',' header)) v1 t)
