-- ===== src/Node/State/Tests.antt =====
-- The store of logins in flight (node/oidcState.ts) at concrete inputs.
use axiam_typescript_sdk.Prelude.{ℕ, ◌+◌, ◌<◌, ◌≡◌, refl, List, [], ◌∷◌, none, some}
use axiam_typescript_sdk.Prelude.Int.{pos}
use axiam_typescript_sdk.Node.State.{size, OidcStateEntry, create, save, consume}
use axiam_typescript_sdk.Node.State.History.{
  Call, saves, consumes, sizes, run, step, open_login, consume-run,
}

abbrev login : OidcStateEntry
login = record {
  state = "s";
  nonce = "n";
  code_verifier = "v";
  redirect_uri = "/cb";
  return_to = none;
}

abbrev calls : List (ℕ × Call)
calls =
    (10, saves login)
    ∷ (20, consumes "s")
    ∷ (30, saves login)
    ∷ (40, sizes)
    ∷ (50, consumes "other")
    ∷ []

found_again : (consume 60 "s" (run (create (pos 5000)) calls)).1 ≡ some login
unfolding consume run step create size save
found_again = refl

consume-run_example : (t : ℕ) × (open_login "s" none calls ≡ some (login, t)) × (60 < t + 600000)
consume-run_example = consume-run (pos 5000) calls 60 "s" login found_again
