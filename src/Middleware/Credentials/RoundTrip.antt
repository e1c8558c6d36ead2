-- ===== src/Middleware/Credentials/RoundTrip.antt =====
-- Cookies that are printed and parsed again (middleware/cookieHeader.ts).
use axiam_typescript_sdk.Prelude.{
  ℕ, ◌≡◌, ◌∙◌, refl, ap, String, true, false, List, [], ◌∷◌, map, Option, none, some, arith, str_eq,
  ◌==◌, if◌then◌else◌, All,
}
use axiam_typescript_sdk.Prelude.Dict
use axiam_typescript_sdk.Prelude.Texts.{
  is_empty, is_space, trim, trim_start, trim_end, cut, split_on, onto_first,
}
use axiam_typescript_sdk.Core.Memo.{join}
use axiam_typescript_sdk.Middleware.Credentials.{add_pair, add_pairs, parse_cookie_header}
use Prim.Native.Char.{Char, code}
use Prim.Native.String
use text.Mathlib.TextLemmas.{nil-append, cons-append}

-- The character does not stand in the text.
abbrev pub Free : ℕ → String → Type 0
Free k String.[] = Unit {0}
Free k (String.◌∷◌ c s) = ((code c == k) ≡ false) × Free k s

abbrev pub StartsPlain : String → Type 0
StartsPlain String.[] = ⊥
StartsPlain (String.◌∷◌ c s) = is_space (code c) ≡ false

-- A name that a cookie can have here, and a value.
abbrev pub IsName : String → Type 0
IsName n =
    StartsPlain n × (trim_end n ≡ n) × Free b'=' n × Free b';' n × (str_eq n "__proto__" ≡ false)

abbrev pub IsValue : String → Type 0
IsValue v = (trim_start v ≡ v) × (trim_end v ≡ v) × Free b';' v

abbrev pub pair_text : String × String → String
pair_text pair = String.◌++◌ pair.0 (String.◌∷◌ "=" pair.1)

-- `name=value; name=value`
abbrev pub print : List (String × String) → String
print pairs = join "; " (map pair_text pairs)

append-Free : (k : ℕ) (s t : String) → Free k s → Free k t → Free k (String.◌++◌ s t)
append-Free k String.[] t h g = rw (nil-append t) g
append-Free k (String.◌∷◌ c s) t (p, h) g = rw (cons-append c s t) (p, append-Free k s t h g)

split-Free : (k : ℕ) (s : String) → Free k s → split_on k s ≡ s ∷ []
split-Free k String.[] h = refl
split-Free k (String.◌∷◌ c s) (p, h) = rw p (rw (split-Free k s h) refl)

split-append :
    (k : ℕ) (s t : String) (c : Char)
    → Free k s
    → (code c == k) ≡ true
    → split_on k (String.◌++◌ s (String.◌∷◌ c t)) ≡ s ∷ split_on k t
split-append k String.[] t c h e = rw (nil-append (String.◌∷◌ c t)) (rw e refl)
split-append k (String.◌∷◌ d s) t c (p, h) e =
    rw (cons-append d s (String.◌∷◌ c t)) (rw p (rw (split-append k s t c h e) refl))

-- The space after a semicolon makes no difference.
spaced_pairs :
    (ps : List String) (m : List (String × String))
    → add_pairs (onto_first " " ps) m ≡ add_pairs ps m
unfolding add_pairs add_pair
spaced_pairs [] m = refl
spaced_pairs (p ∷ ps) m = refl

separator-append : (u : String) → String.◌++◌ "; " u ≡ String.◌∷◌ ";" (String.◌∷◌ " " u)
separator-append u =
    cons-append ";" " " u
    ∙ ap (String.◌∷◌ ";") (cons-append " " "" u ∙ ap (String.◌∷◌ " ") (nil-append u))

add_pairs-join :
    (xs : List String) (m : List (String × String))
    → All (Free b';') xs
    → add_pairs (split_on b';' (join "; " xs)) m ≡ add_pairs xs m
unfolding add_pairs join
add_pairs-join [] m h = refl
add_pairs-join (x ∷ []) m (p, h) = rw (split-Free b';' x p) refl
add_pairs-join (x ∷ y ∷ rest) m (p, h) = rw (separator-append (join "; " (y ∷ rest))) (
    rw (split-append b';' x (String.◌∷◌ " " (join "; " (y ∷ rest))) ";" p refl) (
      spaced_pairs (split_on b';' (join "; " (y ∷ rest))) (add_pair x m)
      ∙ add_pairs-join (y ∷ rest) (add_pair x m) h))

append-full : (s t : String) → is_empty t ≡ false → is_empty (String.◌++◌ s t) ≡ false
append-full String.[] t h = rw (nil-append t) h
append-full (String.◌∷◌ c s) t h = rw (cons-append c s t) refl

trim_end-append :
    (s t : String)
    → trim_end t ≡ t
    → is_empty t ≡ false
    → trim_end (String.◌++◌ s t) ≡ String.◌++◌ s t
trim_end-append String.[] t e full = rw (nil-append t) e
trim_end-append (String.◌∷◌ c s) t e full =
    rw (cons-append c s t) (rw (trim_end-append s t e full) (rw (append-full s t full) refl))

cut-append :
    (k : ℕ) (s t : String) (c : Char)
    → Free k s
    → (code c == k) ≡ true
    → cut k (String.◌++◌ s (String.◌∷◌ c t)) ≡ some (s, t)
cut-append k String.[] t c h e = rw (nil-append (String.◌∷◌ c t)) (rw e refl)
cut-append k (String.◌∷◌ d s) t c (p, h) e =
    rw (cons-append d s (String.◌∷◌ c t)) (rw p (rw (cut-append k s t c h e) refl))

-- A value that is trimmed stays so after the sign.
sign-trimmed : (v : String) → trim_end v ≡ v → trim_end (String.◌∷◌ "=" v) ≡ String.◌∷◌ "=" v
sign-trimmed v h = rw h (ground arith)

trim-StartsPlain : (s : String) → StartsPlain s → trim_start s ≡ s
trim-StartsPlain String.[] h = absurd h
trim-StartsPlain (String.◌∷◌ c s) h = rw h refl

append-StartsPlain : (s t : String) → StartsPlain s → StartsPlain (String.◌++◌ s t)
append-StartsPlain String.[] t h = absurd h
append-StartsPlain (String.◌∷◌ c s) t h = rw (cons-append c s t) h

full-StartsPlain : (s : String) → StartsPlain s → is_empty s ≡ false
full-StartsPlain String.[] h = absurd h
full-StartsPlain (String.◌∷◌ c s) h = refl

-- The parts of a printed pair are found again.
trim-pair_text :
    (n v : String) → StartsPlain n → trim_end v ≡ v → trim (pair_text (n, v)) ≡ pair_text (n, v)
trim-pair_text n v plain ended =
    rw (trim-StartsPlain (pair_text (n, v)) (append-StartsPlain n (String.◌∷◌ "=" v) plain))
      (trim_end-append n (String.◌∷◌ "=" v) (sign-trimmed v ended) refl)

trim-name : (n : String) → StartsPlain n → trim_end n ≡ n → trim n ≡ n
trim-name n plain ended = rw (trim-StartsPlain n plain) ended

add_pair-text :
    (n v : String) (m : List (String × String))
    → IsName n
    → IsValue v
    → add_pair (pair_text (n, v)) m ≡ Dict.set n v m
unfolding add_pair
add_pair-text n v m (plain, ended, no_sign, no_end, safe) (begun, ended', no_end') =
    let trimmed : trim v ≡ v = rw begun ended' in
    rw (trim-pair_text n v plain ended', add_pair)
      (rw (cut-append b'=' n v "=" no_sign refl, add_pair)
        (rw (trim-name n plain ended) (rw (full-StartsPlain n plain) (rw safe (rw trimmed refl)))))

abbrev pub AreCookies : List (String × String) → Type 0
AreCookies [] = Unit {0}
AreCookies ((n, v) ∷ pairs) = (IsName n × IsValue v) × AreCookies pairs

set_all : List (String × String) → List (String × String) → List (String × String)
set_all [] m = m
set_all ((n, v) ∷ pairs) m = set_all pairs (Dict.set n v m)

add_pairs-text :
    (pairs m : List (String × String))
    → AreCookies pairs
    → add_pairs (map pair_text pairs) m ≡ set_all pairs m
unfolding add_pairs set_all
add_pairs-text [] m h = refl
add_pairs-text ((n, v) ∷ pairs) m ((name, val), h) =
    ap (add_pairs (map pair_text pairs)) (add_pair-text n v m name val)
    ∙ add_pairs-text pairs (Dict.set n v m) h

pairs-Free :
    (pairs : List (String × String)) → AreCookies pairs → All (Free b';') (map pair_text pairs)
pairs-Free [] h = tt
pairs-Free ((n, v) ∷ pairs) ((name, val), h) =
    (append-Free b';' n (String.◌∷◌ "=" v) name.3 (refl, val.2), pairs-Free pairs h)

-- The last value that is given to the name.
abbrev pub last_value : String → List (String × String) → Option String → Option String
last_value k [] held = held
last_value k ((n, v) ∷ pairs) held = last_value k pairs (if str_eq n k then some v else held)

get-set_all :
    (k : String) (pairs m : List (String × String))
    → Dict.get k (set_all pairs m) ≡ last_value k pairs (Dict.get k m)
unfolding set_all
get-set_all k [] m = refl
get-set_all k ((n, v) ∷ pairs) m =
    get-set_all k pairs (Dict.set n v m) ∙ ap (last_value k pairs) (Dict.get-set n k v m)

-- A header that holds cookies `name=value`, separated by semicolons and spaces, parses to those cookies:
-- each name has the last value that the header gives to it, and no other name has one. The names
-- begin and end with no white space, are not empty and not `__proto__`, and have no equals sign;
-- the values begin and end with none either; and neither has a semicolon.
pub get-parse-print :
    (pairs : List (String × String)) (k : String)
    → AreCookies pairs
    → Dict.get k (parse_cookie_header (some (print pairs))) ≡ last_value k pairs none
unfolding parse_cookie_header
get-parse-print pairs k h =
    rw (add_pairs-join (map pair_text pairs) [] (pairs-Free pairs h))
      (rw (add_pairs-text pairs [] h) (get-set_all k pairs []))
