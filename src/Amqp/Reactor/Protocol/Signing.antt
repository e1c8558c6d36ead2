-- ===== src/Amqp/Reactor/Protocol/Signing.antt =====
-- The replies that amqp/reactor/protocol.ts builds and signs.
use axiam_typescript_sdk.Prelude.{
  ◌<◌, ◌≡◌, ◌↔◌, ◌∙◌, refl, String, true, List, [], ◌∷◌, none, some, arith, str_eq, eq_iff,
  if◌then◌else◌, All,
}
use axiam_typescript_sdk.Prelude.Dict
use axiam_typescript_sdk.Prelude.Dict.{Distinct}
use axiam_typescript_sdk.Amqp.Platform.{Platform}
use axiam_typescript_sdk.Amqp.Hmac.RoundTrip.{verify-sign_iff}
use axiam_typescript_sdk.Amqp.Reactor.Protocol.{
  ReactorReply, insert_sorted, sorted_patch, canonical_reply_text, sign_reactor_reply,
  reactor_reply_signature_valid,
}

get-insert_sorted :
    (k v j : String) (m : List (String × String))
    → Dict.get k m ≡ none
    → Dict.get j (insert_sorted k v m) ≡ (if str_eq k j then some v else Dict.get j m)
unfolding insert_sorted
get-insert_sorted k v j [] h = refl
get-insert_sorted k v j ((i, w) ∷ m) h =
    ground (arith, get-insert_sorted k v j m, eq_iff i k, eq_iff k j, eq_iff i j)

-- Sorting a patch whose fields have distinct names drops no field, adds none and changes no value.
pub get-sorted_patch :
    (patch : List (String × String)) (k : String)
    → Distinct patch
    → Dict.get k (sorted_patch patch) ≡ Dict.get k patch
unfolding sorted_patch
get-sorted_patch [] k h = refl
get-sorted_patch ((i, v) ∷ m) k (fresh, h) = ground (
  arith,
  get-insert_sorted i v k (sorted_patch m) (get-sorted_patch m i h ∙ fresh),
  get-sorted_patch m k h,
)

module _ (platform : Platform) where
  open platform use {Key, hmac}

  -- Signed with one key, a reply verifies under another exactly if the digests of its canonical text
  -- are the same, whatever signature it had before: so it verifies under its own key. The platform's
  -- digests are bytes.
  pub signature_valid-sign_iff :
      ((k : Key) (text : String) → All (λ b. b < 256) (hmac k text))
      → (reply : ReactorReply) (key other : Key)
      → (reactor_reply_signature_valid platform (sign_reactor_reply platform reply key) other
          ≡ true)
        ↔ (hmac key (canonical_reply_text platform reply)
            ≡ hmac other (canonical_reply_text platform reply))
  unfolding sign_reactor_reply reactor_reply_signature_valid canonical_reply_text
  signature_valid-sign_iff bytes reply key other = verify-sign_iff platform bytes other key _ _
