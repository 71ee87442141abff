-- ===== src/Lib.antt =====
-- The OMODA platform's governed core, modelled and proved.
--
-- OMODA lets agents act on the outside world only through one function, `authorize` of
-- src/broker/authorize.js. A skill manifest is compiled to a policy (src/policy/compile.js) which an
-- evaluator checks request by request (src/policy/envelope.js). A write with a real-world impact is
-- absent from the compiled policy; it comes into being for the length of one call, when people have
-- decided on it through the intents of src/api/intents.js. Everything is recorded in a hash-chained
-- ledger (src/ledger/ledger.js), and some actions are prohibited whoever decides
-- (src/domain/prohibited.js).
--
-- The files and the code they model:
--   Prelude, Prelude/*    shared names, lists, maps with text keys, patterns over character codes
--   Json                  JavaScript values and the stable serialisation of src/ledger/ledger.js; Norm
--                         has values up to the order of keys, Read what a text tells apart
--   Domain/Taxonomy       src/domain/taxonomy.js: verbs, impacts, tiers, consent, methods
--   Domain/Action         the action that is governed, with the fields that the code reads
--   Domain/Prohibited     src/domain/prohibited.js: `prohibitedReason`
--   Ledger                src/ledger/ledger.js: `createLedger` with `append`, `verify` and `query`
--   Policy/Glob           `pathMatches` of src/policy/envelope.js
--   Policy/Envelope       `createEnvelope`: `check`, `applyDelta`, `revertDelta`
--   Policy/Port           the policy port as an interface: its operations, and what a client relies on
--   Policy/Simulated      `createSimulatedPolicy`, which keeps that interface
--   Policy/OpenShell      src/policy/openshell.js: the policy port over the live policy of the box
--   Policy/Compile        src/policy/compile.js and the level rules of src/schema/manifest.js
--   Broker/Decision       `verifyDecision` of src/broker/decision.js
--   Broker/Undo           src/broker/undo.js
--   Broker/World          the state that `authorize` acts on, and the records it writes
--   Broker/Authorize      `authorize`; Cases has its branches as one rule
--   Api/Intents           src/api/intents.js; Decide has `decide`
--   Api/Auth              src/api/auth.js: tokens, nonces, signatures, `authenticate`, `checkReplay`
--   Api/Limiter           `createRateLimiter` of src/api/auth.js
--   Api/Server            src/api/server.js: from the route of a request below /v1 to its endpoint;
--                         Path has the paths, Serve the endpoints, Rule what all of them keep
--   Api/Portal            src/api/server.js: `handle` with the portal below /ui before it: who is let
--                         in, and the decision of the operator
--   Api/Stream            src/api/stream.js: `accept`, `ingest` and `release`, and the envelope of
--                         src/transport/envelope.js for an event
--   Api/Dialer            `createUpstreamDialer` of src/api/stream.js: its connections and redials
--   Api/Admin             src/web/admin-auth.js
--   Bus                   src/bus.js: `publish`, `subscribe` and `stats`
--   Skills/Load           src/skills/load.js: grants, capability index, merge of network policies;
--                         `compileRegistry` of src/policy/compile.js
--   Skills/Paths          the lists of paths in `mergeFragments` of src/skills/load.js
--   Coco/Signals          `candidateSignals` of src/coco/judge.js
--   Coco/Adapter          src/coco/adapter.js: its messages, and the window of a camera
--   Coco/World, Incidents, Judge   `createObservationJudge` of src/coco/judge.js: its state and
--                         records, the incidents it keeps, and its handlers
--   Orchestrator          src/orchestrator.js
--   Channels/Telegram     src/channels/telegram.js: `parseUpdate` and the data of the buttons
--   Channels/World, Vote  src/channels/telegram-loop.js: the state of the loop, and a tap's vote
--   Channels/Loop         src/channels/telegram-loop.js: `handle` and `pollOnce`
--   Knowledge             `chunkText` of src/knowledge/store.js
--   Gateway               src/gateway/openclaw.js: the signed text, and the requests of a client
--   Telemetry/Display     `levelFor` of src/telemetry/display.js
--   Telemetry/Narrate     src/domain/response-plan.js and the handoffs of src/telemetry/narrate.js
--   Telemetry/Audit       src/telemetry/audit.js
--   Transport/Modality    `detectModality` of src/channels/modality.js
--   Transport/Triggers    src/transport/triggers.js: `match`, `add` and `remove`
--   Models/Router         src/models/router.js
--   Models/Screen         src/models/screen.js
--   Models/Client         `stripReasoning` and `extractJson` of src/models/client.js
--   Models/Plan           src/models/plan.js
--   Examples/*            the theorems at concrete inputs, and tests
--
-- State and effects. An operation takes the state and gives the new one with its answer. The world of
-- the Broker (Broker/World) holds the ledger, the policy, the undo registry and a trace of what was
-- done, in order. A thrown error is a value: of `Reply` for the policy and the executor, of `Appended`
-- for the ledger, `failed` for `authorize` as a whole, `none` for a pattern that is no valid expression.
-- Awaiting is sequencing: one call of `authorize` runs to its end before the next. The judge is the
-- exception: an observation that waits for the model is pending in its state, and others come between.
--
-- Parameters. The digest (`sha256`, `hmac`), the disk (`Disk`, one value per write), the clock, random
-- ids, the executor of an action, the environment's model cache, `localeCompare`, `JSON.parse`, the
-- schemas of the bodies, the answers of the models, the modality transform and the retrieved context,
-- how a call of the messaging service goes, the text of a list of codes (`print`), the JSON text of an
-- event's payload, the printing of a time and the tools that read and write the live policy are
-- arguments, and so are the other pages of the portal. The rate limiter counts in thousandths of a token, and its clock does not go back.
--
-- Texts. Text is compared and cut by characters, where JavaScript counts UTF-16 units; lower case is
-- that of ASCII. A number is a natural number, or the text of any other number. The keys of an object
-- keep the order in which they were set, also those that look like numbers.
--
-- Fuel. The printing of numbers runs on n + 1 rounds for n, one for each digit. The loop that cuts a
-- chunk of a document runs on the text's length, which is enough when a chunk may hold a character;
-- with a length of 0 the loop of the source does not end.
-- Everything else is structural recursion.
--
-- Not modelled: the other pages of the portal and the sockets of the HTTP server, the sockets of the event stream and its
-- viewers, the live vision adapter, the texts that the operator is shown, the keys and the socket of
-- the gateway client, the calls of the models over the network, boot, the scores and files of the
-- knowledge store, the activity ticker, the event telemetry, training, the demos, the mock city and
-- the web pages; of src/coco/judge.js the prompt; of src/policy/compile.js the YAML text; of
-- src/skills/load.js the search for files and the front matter; of src/transport/triggers.js the file
-- behind the store; of src/bus.js the removal of a subscriber; of src/schema/manifest.js and
-- src/api/stream.js the checks of single fields, which belong to their validation library.
pub mod Prelude
pub mod Json
pub mod Domain
pub mod Ledger
pub mod Policy
pub mod Broker
pub mod Api
pub mod Models
pub mod Examples
pub mod Bus
pub mod Skills
pub mod Transport
pub mod Coco
pub mod Orchestrator
pub mod Channels
pub mod Knowledge
pub mod Gateway
pub mod Telemetry
