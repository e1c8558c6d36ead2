-- ===== src/Rest/Interceptors/Concluded.antt =====
-- How a request ends that has asked for a refresh (rest/interceptors.ts).
use axiam_typescript_sdk.Prelude.{◌≡◌, false, List, [], ◌∷◌, none}
use axiam_typescript_sdk.Prelude.Results.{Result, ok, err}
use axiam_typescript_sdk.Json.{Json}
use axiam_typescript_sdk.Core.Errors.{auth}
use axiam_typescript_sdk.Rest.Interceptors.{
  Rejection, SharedSession, RequestConfig, AxiosError, mapped, Call, sent, refreshed, Transport,
  Run, Replay,
}
use axiam_typescript_sdk.Rest.Interceptors.Replay.{marked}

module _ {World Response : Type 0} (transport : Transport World Response) where
  open transport use {send, refresh_guard}

  -- The rejection after a refresh that failed, once these calls were made.
  abbrev pub refused_run : List Call → SharedSession → World → Run World Response
  refused_run calls s w = record {
    outcome = err (mapped (auth "session refresh failed; re-authentication required" none));
    session = record {
      authenticated = false;
      csrf_token = none;
      device_access_token = s.device_access_token;
    };
    world = w;
    calls = calls;
  }

  -- How a run ends that is answered by this sending, which asks for no refresh.
  abbrev pub Answers :
      Result AxiosError Response → SharedSession → World → Run World Response → Type 0
  Answers (ok response) s w run = (run.outcome ≡ ok response) × (run.session ≡ s) × (run.world ≡ w)
  Answers (err e) s w run =
      ((rejection : Rejection) × (run.outcome ≡ err rejection))
      × (run.session ≡ s)
      × (run.world ≡ w)

  -- How a run ends that has asked for a refresh, by what the refresh answers.
  abbrev pub Concludes :
      RequestConfig → Result Json (Unit {0}) → SharedSession → World → Run World Response → Type 0
  Concludes config (err cause) s w run = run ≡ refused_run (sent config ∷ refreshed ∷ []) s w
  Concludes config (ok u) s w run =
      (run.calls ≡ sent config ∷ refreshed ∷ sent (marked config) ∷ [])
      × Answers (send w s (marked config)).0 (send w s (marked config)).1
          (send w s (marked config)).2 run
