-- ===== src/Node/State.antt =====
-- node/oidcState.ts: the in-memory store of logins in flight. The clock is an argument, in whole
-- milliseconds; a TTL is a whole number, which may be negative.
pub mod History
mod Tests
use axiam_typescript_sdk.Prelude.{
  ℕ, suc, ◌+◌, ◌-◌, ◌≡◌, String, Bool, true, false, not, List, [], ◌∷◌, Option, none, some, min,
  leb, if◌then◌else◌, length,
}
use axiam_typescript_sdk.Prelude.Int.{ℤ, pos, negsuc}
use axiam_typescript_sdk.Prelude.Dict

pub record OidcStateEntry : Type 0 where
  pub state : String
  pub nonce : String
  pub code_verifier : String
  pub redirect_uri : String
  pub return_to : Option String

abbrev pub oidc_state_ttl_ms : ℕ
oidc_state_ttl_ms = 600000

pub record Held : Type 0 where
  pub entry : OidcStateEntry
  pub expires_at : ℕ

-- `ttl` is at most `oidc_state_ttl_ms`.
pub record MemoryOidcStateStore : Type 0 where
  pub entries : List (String × Held)
  pub ttl_ms : ℤ

-- `Math.min(ttlMs, OIDC_STATE_TTL_MS)`
clamp : ℤ → ℤ
clamp (pos n) = pos (min n oidc_state_ttl_ms)
clamp (negsuc n) = negsuc n

pub create : ℤ → MemoryOidcStateStore
unfolding clamp
create ttl = record { entries = []; ttl_ms = clamp ttl }

-- `held.expiresAt <= now`
pub is_expired : ℕ → Held → Bool
is_expired now held = leb held.expires_at now

pub sweep : ℕ → MemoryOidcStateStore → MemoryOidcStateStore
unfolding is_expired
sweep now s = record s { entries = Dict.keep (λ held. not (is_expired now held)) s.entries }

-- The getter sweeps too.
pub size : ℕ → MemoryOidcStateStore → MemoryOidcStateStore × ℕ
unfolding sweep
size now s = let swept = sweep now s in (swept, length swept.entries)

-- `now + ttl`. Below 0 the sum is held at 0: a clock is never below that, so such an entry has
-- expired either way.
pub plus_ttl : ℕ → ℤ → ℕ
plus_ttl now (pos n) = now + n
plus_ttl now (negsuc n) = now - suc n

pub save : ℕ → OidcStateEntry → MemoryOidcStateStore → MemoryOidcStateStore
unfolding sweep plus_ttl
save now entry s =
    let swept = sweep now s in
    record swept {
      entries =
          Dict.set entry.state (record { entry = entry; expires_at = plus_ttl now swept.ttl_ms })
            swept.entries;
    }

taken :
    ℕ → MemoryOidcStateStore → String → Option Held → MemoryOidcStateStore × Option OidcStateEntry
unfolding is_expired
taken now s state none = (s, none)
taken now s state (some held) =
    let rest = record s { entries = Dict.delete state s.entries } in
    if is_expired now held then (rest, none) else (rest, some held.entry)

pub consume : ℕ → String → MemoryOidcStateStore → MemoryOidcStateStore × Option OidcStateEntry
unfolding taken
consume now state s = taken now s state (Dict.get state s.entries)
