-- ===== src/Rest/Interceptors/Replay.antt =====
-- How often a request is sent, and that it comes to an end (rest/interceptors.ts).
use axiam_typescript_sdk.Prelude.{
  ℕ, suc, ◌≡◌, ◌∙◌, inl, inr, refl, sym, ap, subst, true, false, ◌&&◌, ◌||◌, List, [], ◌∷◌, Option,
  none, some, arith, ◌==◌, Bool-cases,
}
use axiam_typescript_sdk.Prelude.Results.{Result, ok, err, Result-cases}
use axiam_typescript_sdk.Json.{Json}
use axiam_typescript_sdk.Rest.Interceptors.{
  SharedSession, RequestConfig, AxiosError, Call, sent, refreshed, Transport, Run, refreshes,
  refresh_and_replay, on_response, on_rejected, on_settled, on_parts, request, Replay,
  is_skip_refresh, is_device_session,
}

abbrev pub marked : RequestConfig → RequestConfig
marked config = record config { _retry = true }

-- What follows the first sending: nothing, or, for a request that is not a replay, one refresh and at most
-- one replay.
pub data Follows (config : RequestConfig) : List Call → Type 0 where
  at_once : Follows config []
  refused : config._retry ≡ false → Follows config (refreshed ∷ [])
  replayed : config._retry ≡ false → Follows config (refreshed ∷ sent (marked config) ∷ [])

Follows-marked :
    (config : RequestConfig) (calls : List Call)
    → config._retry ≡ true
    → Follows config calls
    → calls ≡ []
Follows-marked config _ mark at_once = refl
Follows-marked config _ mark (refused fresh) = cc
Follows-marked config _ mark (replayed fresh) = cc

module _ {World Response : Type 0} (transport : Transport World Response) where
  open transport use {send, refresh_guard, pathname}

  -- The config of an error is that of its request.
  abbrev pub Keeps : Type 0
  Keeps =
      (w : World) (s : SharedSession) (c : RequestConfig) (e : AxiosError) (d : RequestConfig)
      → (send w s c).0 ≡ err e
      → e.config ≡ some d
      → d ≡ c

  abbrev Ends : RequestConfig → Option (Run World Response) → Type 0
  Ends config result = (run : Run World Response) × (result ≡ some run) × Follows config run.calls

  -- A replay comes to an end with one sending.
  abbrev pub IsSentOnce : Replay transport → RequestConfig → Type 0
  IsSentOnce replay config =
      config._retry ≡ false
      → (s : SharedSession) (w : World)
      → (run : Run World Response) × (replay (marked config) s w ≡ some run)
        × (run.calls ≡ sent (marked config) ∷ [])

  refresh-Ends :
      (replay : Replay transport) (config : RequestConfig) (s : SharedSession) (w : World)
      → config._retry ≡ false
      → IsSentOnce replay config
      → Ends config (refresh_and_replay transport replay config s w)
  unfolding refresh_and_replay
  refresh-Ends replay config s w fresh once = elim (Result-cases ((refresh_guard w s).0)) [
    | inl (done, e) ↦
        let (run, ran, calls) = once fresh (refresh_guard w s).1 (refresh_guard w s).2 in
        rw (e, ran) (_, refl, rw calls (replayed fresh))
    | inr (cause, e) ↦ rw e (_, refl, refused fresh)
  ]

  fresh-refreshes :
      (status : ℕ) (config : RequestConfig) (s : SharedSession)
      → refreshes status config s ≡ true
      → config._retry ≡ false
  fresh-refreshes status config s h = ground arith

  response-Ends :
      (replay : Replay transport) (error : AxiosError) (config : RequestConfig)
      (response : ℕ × Option Json) (s : SharedSession) (w : World)
      → IsSentOnce replay config
      → Ends config (on_response transport replay error config response s w)
  unfolding on_response
  response-Ends replay error config response s w once =
      elim (Bool-cases (refreshes response.0 config s)) [
        | inl again ↦
            rw again
              (refresh-Ends replay config s w (fresh-refreshes response.0 config s again) once)
        | inr final ↦
            rw final
              (elim (Bool-cases
                (response.0 == 401 && (is_skip_refresh config || is_device_session s))) [
                  | inl skip ↦ rw skip (_, refl, at_once)
                  | inr other ↦ rw other (_, refl, at_once)
                ])
      ]

  parts-Ends :
      (replay : Replay transport) (error : AxiosError) (from : Option RequestConfig)
      (response : Option (ℕ × Option Json)) (config : RequestConfig) (s : SharedSession) (w : World)
      → ((d : RequestConfig) → from ≡ some d → d ≡ config)
      → IsSentOnce replay config
      → Ends config (on_parts transport replay error from response s w)
  unfolding on_parts
  parts-Ends replay error none none config s w same once = (_, refl, at_once)
  parts-Ends replay error none (some response) config s w same once = (_, refl, at_once)
  parts-Ends replay error (some d) none config s w same once = (_, refl, at_once)
  parts-Ends replay error (some d) (some response) config s w same once =
      subst (λ c. Ends config (on_response transport replay error c response s w))
        (sym (same d refl)) (response-Ends replay error config response s w once)

  settled-Ends :
      (replay : Replay transport) (answer : Result AxiosError Response) (config : RequestConfig)
      (s : SharedSession) (w : World)
      → ((e : AxiosError) (d : RequestConfig) → answer ≡ err e → e.config ≡ some d → d ≡ config)
      → IsSentOnce replay config
      → Ends config (on_settled transport replay answer s w)
  unfolding on_settled on_rejected
  settled-Ends replay (ok response) config s w same once = (_, refl, at_once)
  settled-Ends replay (err e) config s w same once =
      parts-Ends replay e e.config e.response config s w (λ d. same e d refl) once

  module _ (keeps : Keeps) where
    sent-Ends :
        (fuel : ℕ) (config : RequestConfig) (s : SharedSession) (w : World)
        → IsSentOnce (request transport fuel) config
        → (run : Run World Response) × (request transport (suc fuel) config s w ≡ some run)
          × (calls : List Call) × (run.calls ≡ sent config ∷ calls)
          × Follows config calls
    unfolding request
    sent-Ends fuel config s w once =
        let (run, ran, follows) =
          settled-Ends (request transport fuel) (send w s config).0 config (send w s config).1
            (send w s config).2 (keeps w s config) once in
        rw ran (_, refl, run.calls, refl, follows)

    pub marked_once :
        (fuel : ℕ) (config : RequestConfig) → IsSentOnce (request transport (suc fuel)) config
    marked_once fuel config fresh s w =
        let (run, ran, calls, same, follows) = sent-Ends fuel (marked config) s w (λ h. cc) in
        (
          run,
          ran,
          same
              ∙ ap (λ x. sent (marked config) ∷ x)
                  (Follows-marked (marked config) calls refl follows),
        )

    -- Where the error of a request carries the request's own config, two units of fuel are enough for every
    -- request, and it is sent once, or, if it was no replay, at most twice, with exactly one refresh between.
    pub request-Follows :
        (fuel : ℕ) (config : RequestConfig) (s : SharedSession) (w : World)
        → (run : Run World Response) × (request transport (suc (suc fuel)) config s w ≡ some run)
          × (calls : List Call) × (run.calls ≡ sent config ∷ calls)
          × Follows config calls
    request-Follows fuel config s w = sent-Ends (suc fuel) config s w (marked_once fuel config)
