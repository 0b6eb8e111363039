-- ===== src/Lib.antt =====
-- A verification library of go-platform-kit, a kit of Go packages that services share.
--
-- Parts, and the files that model them (paths from the repository's root):
--   errors/errors.go, errors/problem.go, errors/render.go: the result codes `err:domain:reason`
--     (Errors/Codes), the registry of reasons (Errors/Registry), the problem envelope and its options
--     (Errors/Problem), the error types and the mapping of a code to an error (Errors/Taxonomy),
--     `NewProblem` and its tables (Errors/Envelope), `Relay` (Errors/Relay), `toProblem`
--     (Errors/ToProblem), the error handler of the framework with its audit hooks (Errors/Render),
--     one failure on its way through several services (Errors/Journey, Errors/Journey/Arrival).
--   broker/envelope.go, broker/broker.go, broker/consume.go: the event envelope (Broker/Envelope),
--     `stripTokens` (Broker/Tokens), `Stamp`, `Publish` and `PublishStamped` (Broker/Publish),
--     `Dispatch` over a store and a handler (Broker/Dispatch), `MemoryIdempotencyStore`
--     (Broker/Store), that store as what `Dispatch` is given (Broker/Memory), `Dispatch` one call at a
--     time, as a step relation of replicas that share a store (Broker/Concurrent), and the counters
--     of a publish and of a run of dispatches (Broker/Counters).
--   broker/natsbroker/: `Connect` with its TLS configuration, `Ping` and `Close` (Natsbroker/Connect),
--     the stream's configuration and the transport (Natsbroker/Stream), a consumer's construction,
--     `Start` and `Stop` (Natsbroker/Lifecycle), the callback, which calls `Dispatch` for each
--     message and acks or naks (Natsbroker); a run of a consumer as a step relation, in which the
--     server may lose messages (Natsbroker/Runs, with its proofs in Natsbroker/Delivery), and in
--     rounds up to `MaxDeliver` (Natsbroker/Rounds, with its proofs in Natsbroker/Drain); the
--     publisher over a connection (Natsbroker/Publishing).
--   observability/: the redacting logger core (Observability/Redaction), metrics and the names of
--     their series (Observability/Metrics), the wiring of tracing and of HTTP clients
--     (Observability/Tracing).
--   propagation/propagation.go: the ids that a context carries (Propagation).
--   correlation/correlation.go: `ValidID`, `Middleware` and the accessors (Correlation).
--   httpclient/httpclient.go: the headers of an outbound call (Httpclient), and the ids along a chain
--     of services (Httpclient/Hops).
--   web/web.go: a captured path parameter, decoded (Web).
--   config/config.go: the base configuration, its bindings and the broker's secrets (Config).
--   platform/platform.go: `Setup`, as the calls that it makes of the application (Platform), one
--     request behind what it installed (Platform/Thread), and the logger that it leaves
--     (Platform/Logging).
-- The parts meet in a service: `Setup` installs tracing, redaction, the middleware and the error
-- handler; the middleware binds the ids of a request, which outbound calls, the
-- events and the errors carry on; a handler returns an error, which Errors/Render renders and
-- audits; a publisher stamps and sends events; a consumer dispatches them once.
--
-- Conventions. A function has the source's name in snake case. Strings are lists of bytes. Statuses
-- are natural numbers, 0 is unset. A map is an association list in some order of its keys, since Go
-- ranges over a map in any order. A pointer that may be nil is an `Option`. A panic is an outcome or
-- `none`. A method under a mutex is one step. Calls to the outside are recorded in the result in
-- their order. Nothing runs on fuel: every loop is structural on what it ranges over. A redelivery is
-- not a loop of the program: its rounds are counted, and one more than the failures of the handler and
-- of acks are enough, where `MaxDeliver` permits them and the server loses no message.
--
-- Parameters, for code outside the repository: `Unicode` (case and white space above ASCII),
-- `Framework` (the framework's error types and those of a service, with `FrameworkLaws` for the
-- statuses that the framework documents), the JSON encoders and decoders, the transport, the clock
-- and the id source, the store and the handler of `Dispatch` (with `StoreLaws`, which Broker/Memory
-- proves of the memory store, `KeepsId`, `HandlerLaws`, `IsReliable` and `FailsFinitely`), the NATS
-- client and JetStream (with `SubscriptionsLaws`, and `AcksFinitely` for acks), crypto/tls, viper (with `ViperLaws`), the secret
-- store, OpenTelemetry, the metrics library (with `CounterLaws`), the wrapped logger core (with
-- `CoreLaws`), `App.ReplaceLogger`, the framework's request as a context (with `RequestContextLaws`) and `strconv.Quote`
-- (with `IsDelimited`).
--
-- Not modelled, since it is the framework's or a library's own: the application that `Setup` calls,
-- the sections that configure other libraries, the time limit of a publish, what a log does with its
-- lines; the text of wrapped errors; the names of the outbound client's metrics, which nothing in the
-- repository uses.
pub mod Common
pub mod Broker
pub mod Natsbroker
pub mod Errors
pub mod Observability
pub mod Propagation
pub mod Correlation
pub mod Httpclient
pub mod Web
pub mod Config
pub mod Platform
