-- ===== src/Lib.antt =====
-- anyonce: one idempotency core behind three doors (HTTP, queues, webhooks). This library models the
-- TypeScript packages and proves what makes them correct.
--
-- The parts and how they interact. A door turns a delivery into an operation (scope, key,
-- fingerprint) and calls `execute` of the engine. The engine claims the operation in a store, runs the
-- handler once under the claim, stores its result and replays it to duplicates. A store keeps one row
-- for each scope and key; the contract says what each of its operations answers and writes.
--
-- Prelude      tests, `if`, texts as UTF-16 code units, `M`: code that acts on a world and may throw
-- Types        packages/core/src/types.ts: the data, names in snake_case, absent fields as `none`
-- SfString     packages/core/src/sfstring.ts: `parseSfString`
-- Key          packages/core/src/key.ts: `validateKey`, `parseKey`; Key/Redact is `redactKey` of keygen.ts
-- Dict         JavaScript's `Map` with text keys, as the memory store uses it
-- Contract     the contract in the comment on `Store` in packages/core/src/types.ts, as relations
--              between the row before, the answer and the row after; Contract/Trace is about any
--              sequence of operations by any callers, Contract/Interchange about calls of two stores
-- Memory       packages/core/src/memory.ts: every method of `MemoryStore`
-- Engine       packages/core/src/engine.ts: `execute`, over any world and any store
-- Codec        packages/stores/src/codec.ts: the flat row of the stores that keep text and numbers
-- Sql          packages/stores/src/sql.ts: each shared statement as a function of the table; Sql/Rows and
--              Sql/Completions say what they do to one row, Sql/Dialect is `pgSql`
-- D1           packages/stores/src/d1.ts: every method of `D1Store`, while other connections write
-- Postgres     packages/stores/src/postgres.ts: every method of `PostgresStore`
-- DurableObjects  packages/stores/src/durable-objects.ts: the object with its sweep table and alarm, and in
--              DurableObjects/Methods every method of `DurableObjectsStore`
-- Dynamo       packages/stores/src/dynamodb.ts: the expressions on an item, and in Dynamo/Methods every
--              method of `DynamoDbStore`
-- Redis        packages/stores/src/redis.ts: the Lua scripts on a hash, and in Redis/Methods every method
--              of `RedisStore`
-- Jcs          packages/core/src/jcs.ts: canonical JSON; Jcs/Normal says which value a text stands for
-- Fingerprint  packages/core/src/fingerprint.ts and `requestFingerprint` of packages/core/src/http/request.ts
-- Http         packages/core/src/http: Http/Capture is `captureResponse` on a stream as a state machine,
--              Http/Replay the stored headers and `replayResponse`, Http/Request what is read of a
--              request before the claim, Http/Options `resolveHttpOptions` and `defaultPolicy`,
--              Http/Problems the problem responses and Http/Run the bridge `runIdempotent`
-- Webhooks     packages/webhooks/src: Webhooks/Verify is `standardWebhooksVerify` and the marker,
--              Webhooks/Receiver the gates of `webhookReceiver` before the bridge
-- Queue        packages/anyq/src: options, keys, scopes and fingerprints; Queue/Deliver is the wrapper
--              `idempotent` and `idempotencyStrategy`
--
-- Bounds and fuel. Times, fences and sizes are natural numbers: the source holds them in doubles, which
-- are exact up to 2^53, and every clock reading is an epoch time. No fuel is used: every loop of the
-- modelled code is a structural recursion over the text, list or map that it walks, or over the three
-- attempts that the SQL, Durable Object and DynamoDB stores make.
--
-- Concurrency. An `await` is a step on the world `W`, which may include what every other caller does
-- meanwhile; the theorems say as hypotheses what such steps leave alone. `MemoryStore` methods do not
-- yield, so each is one step. The SQL stores wait between their statements, and a parameter says what
-- other connections write meanwhile; each statement itself is one step, as the databases promise.
-- A Durable Object is one writer, so a call of it is one step.
--
-- Not modelled: of the HTTP door `withIdempotency` and the Hono middleware; the texts of the queue
-- door's errors; calls of a Durable Object that fail on the way; a request body whose stream fails;
-- scope, principal and skip callbacks that throw; byte values above 255, which `btoa` refuses; index
-- rows that the `rowsWritten` of a Durable Object may count; and
-- what is around the protocol: the Go packages, the conformance runner, the reports, build and release
-- scripts, and examples. Copies against aliasing are rebuilt records here, since values cannot be
-- mutated behind the store's back.
pub mod Prelude
pub mod Types
pub mod SfString
pub mod Jcs
pub mod Key
pub mod Dict
pub mod Contract
pub mod Memory
pub mod Engine
pub mod Codec
pub mod Sql
pub mod D1
pub mod Postgres
pub mod DurableObjects
pub mod Dynamo
pub mod Redis
pub mod Webhooks
pub mod Queue
pub mod Fingerprint
pub mod Http
