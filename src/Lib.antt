-- ===== src/Lib.antt =====
-- Verification of the AXIAM TypeScript SDK: the client library of an identity and access service.
--
-- The parts and where they are modelled. Paths are from the repository's root; a function, a field or
-- a constructor keeps its name in this spelling (`checkAndRecord` is `check_and_record`).
--   Prelude: native numbers, Boolean tests, lists, `Dict` (a JavaScript `Map` in insertion order) and
--     signed integers, shared by all parts.
--   Json: parsed values; an object is its properties in insertion order.
--   Core/Errors and Core/Mapper: src/core/errors.ts and src/core/errorMapper.ts, from a status to the
--     error thrown, and what of a transport error is kept as its cause.
--   Core/Memo: src/core/decisionMemo.ts, the memo of authorization decisions, with its types from
--     src/core/authz.ts and src/core/telemetry.ts.
--   Core/Refresh: src/core/singleFlightRefresh.ts, the guard that shares one refresh among callers.
--   Rest/Retry: src/rest/retry.ts, the retry loop of the read-only operations.
--   Rest/Interceptors: src/rest/interceptors.ts, the refresh and the one replay of a request answered
--     with 401. It maps errors with Core/Mapper; the refresh is the promise of the guard of Core/Refresh.
--   Rest/Csrf: src/core/csrf.ts and the CSRF interceptor, with isForeignHost of src/rest/session.ts.
--   Node/State: src/node/oidcState.ts, the store of logins in flight.
--   Amqp/Hmac, Amqp/Nonce and Amqp/Consumer: src/amqp/hmac.ts and src/amqp/consumer.ts, the signed
--     message from the queue to the handler.
--   Amqp/Reactor: src/amqp/reactor/registry.ts, protocol.ts, runtime.ts and handlers.ts, the
--     signed event from the queue to the signed reply. It signs with Amqp/Hmac and dedups with Amqp/Nonce.
--     Its child Serve is the loop that takes deliveries and drains what is in flight.
--   Node/IdToken and Node/Jwks: src/node/oidcIdToken.ts and src/node/jwks.ts, from a token to its
--     verified claims, with the tenant and the keys that it is bound to.
--   Node/Revocation: src/node/revocationFeed.ts, the poller that says which sessions are revoked.
--   Node/Webhook: src/node/webhook.ts, the check of a signed webhook delivery.
--   Middleware: the guards of a resource server. Credentials is src/middleware/cookieHeader.ts, Verify
--     is src/middleware/verifyCore.ts and peerCertificate.ts (over Node/Jwks or any other verifier, and
--     Node/Revocation), Authz is src/middleware/authzCore.ts, Challenges is src/middleware/mcpCore.ts,
--     and Express, src/middleware/express.ts, puts them together.
--   Manifest: src/management/manifest/spec.ts and plan.ts, the checks of a declarative manifest before
--     any request, and the order in which its resources are created,
--     and the report of an application.
--
-- State is passed explicitly: an operation takes the store and answers the new one, and what can be
-- seen from outside (acks, publications, waits, calls) is a list of effects in order. The clock and
-- random draws are arguments, in whole milliseconds. What the SDK takes from the platform is a
-- parameter: the URL parser of Core/Mapper, and the record of Amqp/Platform (Node's HMAC, the JSON codec
-- and the date parser), over which the theorems hold whatever they do, but that a digest is bytes
-- where a theorem says so. `jose`, UTF-8 and the digests of Node are parameters in the same way, and so are
-- a request's resolver, the access check and the minting of tickets.
--
-- Loops. `withRetry` recurs on the attempts left, three or one. The climb of `topologicalOrder` runs
-- on fuel, one more than there are resources, which is never used up: its guard has no key twice and
-- only declared keys. A request of Rest/Interceptors runs on fuel for its replays, and two units are
-- enough. Every other loop is structural.
--
-- Not modelled: the transports (HTTP, gRPC and the broker's connection), the generated models, the
-- management services, and, so far, the manifest's engine, the OIDC client, the session but for its host
-- test, the device-token interceptor, the Fastify and NestJS guards, the login routes, and the browser
-- entry point. Texts of log messages and of the manifest's problems are stood for by constructors with
-- what they name. Of the order of a patch's keys, array indices, which an
-- object puts first, are left out, and code points stand for UTF-16 units.
pub mod Prelude
pub mod Json
pub mod Core
pub mod Rest
pub mod Node
pub mod Amqp
pub mod Manifest
pub mod Middleware
