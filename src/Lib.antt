-- ===== src/Lib.antt =====
-- A verification library for the Beam SDK repository: its TypeScript parts.
--
-- The parts that are modelled, and the files that model them:
--   Errors      packages/web-sdk/src/core/errors/index.ts: the codes and classes of errors.
--   Retry       packages/web-sdk/src/core/retry/index.ts: `Retry.Backoff` (backoffDelay), `Retry.Loop`
--               (withRetry) and `Retry.Reconnector` (the class Reconnector).
--   Auth        packages/web-sdk/src/core/auth: `Auth.Token` (token.ts) and `Auth.Provider`
--               (CachingTokenProvider of provider.ts).
--   Events      packages/web-sdk/src/core/events/index.ts: `Events.Emitter` (EventEmitter) and
--               `Events.Iterator` (eventsToAsyncIterable).
--   Sse         packages/web-sdk/src/core/transport/sse.ts: the class SseParser.
--   Http        packages/web-sdk/src/core/transport/http.ts: the class HttpTransport: `Http.Messages`
--               (what it sends), `Http.Replies` (what answers become) and `Http.Requesting` (request).
--   Transfers   packages/web-sdk/src/transfers/handle.ts: `Transfers.Wire` (toStatus, toProgress,
--               toTransfer) and `Transfers.Handle` (BeamTransferHandle).
--   Server      packages/web-sdk-server/src: `Server.Token` (token.ts), `Server.Routes` (ROUTES and
--               matchRoute of broker.ts), `Server.Broker` (the rest of broker.ts) and `Server.Memory`
--               (upstreams/memory.ts).
--   Receipts    packages/cre/workflows/transfer-receipts: `Receipts.TransferId` (transfer-id.ts),
--               `Receipts.Report` (receipts.ts), `Receipts.Subjects` and `Receipts.Entries`
--               (subjects.ts, with types of beam.ts).
--   Relay       packages/cre/relay: `Relay.Starts` (runStarts of relay.ts), `Relay.Customers` (customers.ts),
--               and of relay.ts `Relay.Allowlist` (syncAllowlist), `Relay.Gathering`, `Relay.Planning` and
--               `Relay.Recording` (the three parts of runReceipts), `Relay.Closing` (closeUnanswerable) and
--               `Relay.Pass` (runOnce). `Relay.Charges` has the calls that these make.
--   Bridge      packages/cre/bridge: `Bridge.Requests` (types and views of bridge.ts), `Bridge.Pumps` (pumpCre),
--               `Bridge.Results` (handleResult), `Bridge.Reports` and `Bridge.Signatures` (parsing and
--               verification of report.ts), `Bridge.Webhook` (webhook.ts), `Bridge.Delivery` (handleDelivery and
--               handlePoll), `Bridge.Contract` (pumpContract) and `Bridge.Running` (runs of messages, reports
--               and pumpCre); `Bridge.Attestations` is workflows/transfer-receipts/attestations.ts.
--   Sdk         sdks/typescript/src: `Sdk` (routes of models.ts), `Sdk.Plans` (materializePlanChunks of client.ts),
--               `Sdk.Batches` (compactSignedRoutes of nats-control.ts), `Sdk.Splitting`
--               (splitRoutesForPayload) and `Sdk.Streams` (RouteStreamSender of client.ts).
--   Common      what these share: tests on numbers, lists, and texts as lists of code points.
--
-- How they interact: a browser session (Auth) gets its token from the broker (Server), which mints and
-- checks it; the retries and reconnections (Retry) read the flags that the errors (Errors) carry; the
-- parser of event streams (Sse) feeds the handles that emit events (Events); the broker's calls go to an
-- upstream, of which `Server.Memory` is one; a handle (Transfers) follows one transfer; the receipts of
-- finished transfers are reported on a chain (Receipts), by a relay in passes (Relay), whose planning uses
-- the subjects and entries of Receipts; a bridge (Bridge) asks a DON's workflow for receipts and takes the
-- signed reports of it; the SDK for node (Sdk) makes the chunks of a plan and streams the signed routes of
-- them in batches. What the relay calls answers as a function of the calls made before, so that a
-- theorem holds for any answers, and a stop at any point is a part of a history. The bridge goes on while
-- pumpCre waits for the workflow and while handleResult waits for a DON's signers and their signatures:
-- pumpCre is two steps, and handleResult is given what it saw when the report came in and the bridge as it
-- is when it has waited. pumpContract and the relay's passes are one step each: what comes in while they
-- wait is not modelled. A function of the source
-- has the name of its model in snake case. A class is a record, and a method that changes it returns the
-- new record; what the environment decides (outcomes of calls, the abort signal, random numbers, the
-- clock) is an argument, and a history is a list of steps. Errors that are thrown are values. Within each
-- part the module of the part has the definitions, its children have the theorems, and `Examples` the
-- tests.
--
-- Bounds and fuel: numbers are whole and unbounded, as the values of these parts stay far below 2 ^ 53.
-- `with_retry` and `Retry.Reconnector.run` take fuel, one unit for each round of their `for (;;)`; for a
-- finite `maxAttempts` that many units (at least one) are enough for `with_retry`, which is what
-- `Http.Requesting.request` gives, and for a reconnector whose connections are never marked as connected.
-- `run_starts` takes one unit for each range of blocks, and the number of the last block plus two is
-- enough if a range has a block; `split_routes_for_payload` takes one for each batch and each step of a
-- search, and the number of routes plus one is enough for both; `write_batches` takes one for each
-- report, and the number of the entries is enough. All other loops are recursions on lists.
--
-- What is taken as a parameter: node's HMAC, base64url and JSON (`Crypto`), the browser's `atob` and
-- `JSON.parse` (`Platform`), the application's `authorize` and upstream and the platform's URI functions
-- (fields of `Broker`), the browser's URL and JSON functions and random ids (`HttpPlatform`), fetch and
-- the token provider under a request (`HttpIo`), SHA-256 and UTF-8 (`Hashing`), keccak256 and the ABI
-- encoding (`Abi`), and the relay's calls of the chain, Studio, Beam and the website (`StartsIo`,
-- `ChargesIo`, `RelayIo`, `AllowlistIo`, `PassIo`), those that only read answering always or, for
-- listings, failing; keccak256 and the recovery of a signer (`Curve`), and the bridge's reading of a DON's
-- signers (`ResultIo`); the texts of keys and the conversion to a number (`Scripting`) and the length of an
-- encoded request (`Control`); the HMAC and `JSON.parse` of the bridge (`WebhookPlatform`), and its calls
-- of a contract (`ChainIo`). Claims and settings that are numbers in JSON are whole numbers.
--
-- What is not modelled: SseStream, rooms, WebRTC and media, the web agent, the adapters of the broker and
-- its upstream over the Beam SDK, the bridge's calls of a chain, the other files of the CRE packages, the
-- rest of the TypeScript SDK for node, the command line, the editor extension, and all parts in other
-- languages.
pub mod Common
pub mod Errors
pub mod Receipts
pub mod Relay
pub mod Sdk
pub mod Retry
pub mod Auth
pub mod Events
pub mod Sse
pub mod Transfers
pub mod Server
pub mod Bridge
pub mod Http
