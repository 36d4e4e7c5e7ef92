-- ===== src/Lib.antt =====
-- TTS platform: a verification library.
--
-- The platform is two Go services. The API (api/) authenticates users, limits their requests
-- and syntheses, streams synthesized speech from an inference service, and publishes one
-- billing event for each window of delivered audio on NATS. The metering service (metering/)
-- collects the events of each user and charges the wallet in Postgres. Both keep copies of
-- wallet data in Valkey.
--
-- - Common: native lists, integers over the native numbers, byte strings, decimal numerals,
--   association lists, and the errors and results of Go calls. A Go `string` or `[]byte` is a
--   list of bytes, a UUID is its canonical text.
-- - Numbers: `float64` and Postgres's NUMERIC are parameters with their operations, since their
--   arithmetic is not in the repository. Theorems that need it take its laws as a record.
--   Numbers/Fixed is the instance for tests, in millionths.
-- - Postgres: the tables of api/internal/db/migrations, and a connection on which any statement
--   may fail, as a list of faults. What a statement does is written in the component whose Go
--   code has its SQL.
-- - Valkey: the server behind `*redis.Client`, a parameter with what its documentation
--   promises. Valkey/Memory is the instance for tests.
-- - Billing: api/internal/billing. Event has event.go (`Publish`, `CostForSeconds`,
--   `SecondsFromPCM`, `NewEvent`), Coalescer has coalescer.go (`AddPCM`, `Flush`,
--   `flushLocked`). A call is handed its readings of the clock, in nanoseconds; the mutex makes
--   calls take turns, so a request is a list of calls (Calls). Steps, Windows and Keys have
--   proofs.
-- - Metering: metering/internal/consumer/consumer.go. Consumer follows `pricePerMinute`,
--   `debitUser`, `flush` and the message handler of `Run`; a run is a list of messages and
--   ticks. The order in which `flush` takes the users out of its map is that of the association
--   list. Ledger is what the consumer promises: batches that are posted as a whole or not at
--   all. Keeps, Invariants, Prices, Debit, Redelivered, Refines, Conserved, Order and Pending
--   have proofs.
-- - Audio: api/internal/audio/wav.go, with the wrap-around of its 32-bit fields. Reader has an
--   independent reader of the container.
-- - RateLimit: api/internal/ratelimit. Store has store.go (`Effective`, `SetOverride`,
--   `ClearOverride`), Limiter has ratelimit.go (`Allow`). Handlers has the routes of
--   api/internal/handler/rate_limit.go. Overrides, Counters and Quota have proofs.
-- - Synth: api/internal/synthlimit/limit.go, and in Slots the interleavings of the handlers
--   that call it (`acquireSynthesis` and `defer Release` in api/internal/handler/server.go).
-- - Auth: api/internal/auth. Token has the text of tokens (cookie.go and parts of auth.go),
--   Statements has the queries of auth.go, Accounts its functions (`Register`,
--   `AuthenticatePassword`, `CreateAPIKey`, `ResolveAPIKey`, `ListAPIKeys`, `RevokeAPIKey`),
--   Middleware has `BearerMiddleware` (middleware.go), `AdminMiddleware`
--   (api/internal/handler/rate_limit.go) and `rateLimitMiddleware` (api/cmd/api/main.go), Guard
--   the group of routes behind two of them, Handlers the routes of accounts and keys
--   (api/internal/handler/server.go) and `EnsureDefaultUser`. bcrypt, sha256 and the source of
--   randomness are a parameter. Keys, Lifecycle and Revoked have proofs.
-- - Wallet: api/internal/cache/wallet.go. The group of groupcache is a parameter. Fresh and
--   Reads have proofs.
-- - Speech: Feed has `CopyAudioStream` (api/internal/grpcclient/client.go), Job has
--   `runAsyncJob`, Stream the loop of `StreamTTS`, Streaming the whole of it, Usage
--   `ListUsage`, Queue all jobs of the service, Jobs the rows of jobs and the routes that read
--   them, Submit `CreateAsyncTTS`, Admission what comes before a stream (all in
--   api/internal/handler/server.go). A stream is the list of what `Recv` gives. Client has the
--   requests to the inference service and the list of voices (api/internal/handler/meta.go). A
--   job is two steps in Queue, its first UPDATE and the rest, so that others may come in
--   between; Postgres's order of rows of the same time is a parameter of Usage. Delivery,
--   Streamed, Lifecycle, Standing, Ended, Sorted and Paging have proofs.
-- - Api: the routes behind authentication and rate limit. Wrappers has
--   api/internal/gen/openapi.go (`ServerInterfaceWrapper`, `HandlerWithOptions`), Router the
--   dispatch of a request that the middlewares let through (api/cmd/api/main.go); chi's router
--   and the functions that bind parameters are parameters. Root has all routes of
--   api/cmd/api/main.go, Pages the handlers that need no state (api/internal/ui/embed.go,
--   api/internal/docs/docs.go, and some of api/internal/handler/server.go and
--   api/internal/gen/openapi.go). Protected and Closed have proofs.
-- - Live: api/internal/ws/live.go. Wire has its data, Session the variables that the two
--   goroutines of `ServeHTTP` share and what they do with them, Rounds the steps, one for each
--   part of their loops between two points at which the other may come in; a run is a list of
--   such steps in any order. Entry has the part of `ServeHTTP` before them, Blank the test for
--   a blank text (Unicode, in UTF-8). Quiet, Heard, Delivered, Settled, Exhausted, Spoken and
--   Late have proofs.
-- - Process: the start of the services. Dial has `Dial` (api/internal/grpcclient/client.go),
--   Boot `main` of api/cmd/api/main.go with `Migrate` and `Connect` (api/internal/db/db.go),
--   Meter `main` of metering/cmd/metering/main.go and `New`
--   (metering/internal/consumer/consumer.go). What the libraries answer is a parameter, and so
--   is what the migrations make of the tables. Seeded and Restart have proofs.
-- - Config: api/internal/config/config.go, and `RedisAddr`
--   (metering/internal/consumer/consumer.go).
-- - Pipeline: the coalescer, NATS and the consumer one after the other. Sent has what the
--   proofs need of NATS and of the encodings, Taken, Sound, Booked, Rows and Billed have
--   proofs.
-- - Metrics: api/internal/metrics/metrics.go and `HTTPMetricsMiddleware`
--   (api/internal/handler/server.go).
-- - Fixtures: what the tests of several components share.
--
-- How the parts interact: the coalescer publishes the events that the consumer decodes
-- (Billing.Event is the type of both); the consumer deletes the wallet's entry in Valkey after
-- a debit; the rate limiter reads and caches caps in the same Valkey and Postgres. A stream, a
-- job and a session each take a slot of one limiter, read the wallet, and hand the audio that
-- they deliver to a coalescer of their own; a request reaches their handlers through the
-- middlewares of Auth and the routes of Api.
--
-- Bounds: loops are structural recursion on lists. The one fuel is that of the decimal numeral
-- of a number, which starts at the number plus one, and a number has no more digits than that
-- (Common/Decimal). Counters are natural numbers: `seq` and the replies to INCR do not reach
-- the bound of a 64-bit integer. Times are integers in nanoseconds, and Unix times are not
-- negative.
--
-- Not modelled: the logs, and the observations of Prometheus metrics inside the handlers, which
-- nothing reads; the wire encodings (JSON, gRPC, HTTP), which are parameters where a value
-- passes through one; the generated types and gRPC code (api/internal/gen, api/internal/grpc);
-- the shutdown of the processes, and the routes of the metering service for metrics and health;
-- the Python inference service and the web page. For tokens, `strings.TrimSpace` is modelled
-- for ASCII alone.
pub mod Api
pub mod Audio
pub mod Auth
pub mod Billing
pub mod Common
pub mod Config
pub mod Fixtures
pub mod Live
pub mod Metering
pub mod Metrics
pub mod Numbers
pub mod Pipeline
pub mod Postgres
pub mod Process
pub mod RateLimit
pub mod Speech
pub mod Synth
pub mod Valkey
pub mod Wallet
