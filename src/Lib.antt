-- ===== src/Lib.antt =====
-- Verification of DenseCloud, the Go service chassis under go/ of the repository.
--
-- The program. A service built on the chassis has an HTTP runtime (go/server/runtime.go) and may have
-- a gRPC runtime (go/server/grpc_runtime.go). A runner (go/server/runner.go) starts their servers
-- behind the startup hooks, waits for a signal, a context or a server's end, and shuts everything
-- down in order. The health registry (go/server/health.go) answers the live, ready and startup probes
-- by running the registered checks; the runtimes mark it started and shutting down. Requests pass
-- through the middleware and interceptors of go/middleware, which hold the rate limiters and the
-- circuit breakers. Optional modules add themselves to a registry (go/server/extensions.go).
--
-- The files.
--   Prelude: Boolean tests, lists, integers, maps keyed by strings and by comparable keys, and the
--     libraries' names.
--   Golang: Go errors with wrapping, joining and errors.Is, contexts, durations, results, functions of
--     package strings, and net/http: header maps, requests, and what a handler does to its writer.
--   Server/Health: go/server/health.go. Execution has the single-flight calls: healthCheckExecution
--     and the goroutine of startOrJoin, as the steps of a relation over which probes, goroutines and
--     deadlines interleave. Registry has the registry's state and its registration functions,
--     Evaluate has runCheck, runChecks, evaluate and the answers of the handlers, and Endpoints the
--     handlers. The checks themselves, the choices of select and the time are a scheduler, an
--     argument. SingleFlight, Release, Registration, Invariant, Readiness, Shutdown,
--     Stores, Soundness and Summary hold what is proved.
--   Server/Hooks, Server/Runner: go/server/runner.go. Defs has NewRunner, RunBlocking, Shutdown and
--     the merge of their errors; Order and Blocking hold what is proved.
--   Server/HttpRuntime: go/server/runtime.go. Prefix has the route prefixes and the labels of paths,
--     Assembly the parts of NewHTTPRuntime and Construct the whole of it (Built, Pathwise,
--     SystemPaths; SentStatus, Refusal, Routed and Readiness are about its health endpoints);
--     Lifecycle has Startup and Shutdown (Once). Application is the wiring of
--     go/examples/minimal/main.go, in which the runner drives the runtime.
--   Server/HttpPreset: go/server/http_preset.go.
--   Server/GrpcRuntime: the lifecycle of go/server/grpc_runtime.go. Start is two steps, around Serve,
--     so that Stop and GracefulStop come between them (Steps, Lifecycle). Assembly has its metrics
--     and interceptors; Application is the wiring of go/examples/grpc_runtime/main.go.
--   Server/Extensions: the registry of go/server/extensions.go.
--   Middleware/RateLimiter: the token bucket of go/middleware/ratelimit.go (Bound).
--   Middleware/Partitioned: go/middleware/ratelimit_partitioned.go, with a token bucket per key
--     (Bounded, Isolation, Refines).
--   Middleware/Redis: go/middleware/ratelimit_redis.go. Its fallback is any keyed limiter, and in the
--     constructor the partitioned one; Script is the Lua script (Breaker, Degraded,
--     Recovery, ScriptBound).
--   Middleware/CircuitBreaker: the configuration in go/middleware/circuitbreaker.go, the settings of
--     both breakers, and what is assumed of sony/gobreaker, the two sides of its Execute.
--   Middleware/Grpc: go/middleware/grpc.go, and the preset of go/middleware/grpc_preset.go. The unary
--     and the stream form of an interceptor are one definition (Interceptors; Observability for tracing,
--     logging and metrics; Preset, Resilience, Measured, Counted).
--   Middleware/Http: the middleware of go/middleware/http.go, ratelimit.go, circuitbreaker.go and
--     tracing.go. Writer has the response writer, Guards what may answer in place of the handler
--     (Responses, Informational; RateLimited with the token bucket behind RateLimit), and Identity,
--     NewId, Cors (AllowedOrigins), ContentType, Logging and Tracing the rest.
--   Telemetry/Histogram, Telemetry/Keys, Telemetry/Tables, Telemetry/Text, Telemetry/Labels: what
--     go/telemetry/metrics.go and grpc_metrics.go have in common: the histograms, the keys, the
--     tables, the lines of the text format and their labels, with a reader of labels (RoundTrip);
--     Order and Lines are about the order of the lines.
--   Telemetry/HttpMetrics: HTTPMetrics of go/telemetry/metrics.go, with its middleware and its text
--     (Counted, Tables, Render, Order). Telemetry/GrpcMetrics: GRPCMetrics of go/telemetry/grpc_metrics.go
--     (Counted, Render).
--   Telemetry/Otel: go/telemetry/otel.go (Restored). Telemetry/Logger: go/telemetry/logger.go.
--   Server/Tests, Middleware/Tests, Telemetry/MetricsRuns, Telemetry/OtelRuns: the theorems at
--     concrete inputs.
--
-- How the code is carried over. A method becomes a function of the receiver's state that returns the
-- new state and the result. What a method does outside, in hooks, servers and listeners, acts on a
-- state `W` or `S` of the application, as does whatever a hook or a handler does. A nil pointer,
-- function or error is `none`. Every reading of a clock is an argument. A method that holds a lock is
-- one step; where a method gives its locks up in between, its own file says what may come between.
--
-- Bounds. Numbers are unbounded: counters and durations do not wrap around. Tokens are counted in
-- units of 10⁻⁹, in which the refill of a bucket is exact, and durations in nanoseconds, in place of
-- float64: the rounding of the code, by which a sum of refills may stay below a whole token and a
-- request at that instant be denied, is not in the model. No definition runs on fuel: every loop of
-- the code that is modelled runs over a list or a text.
--
-- What is a parameter. Code of other modules is an argument: net/http's ServeMux, StripPrefix and
-- Redirect, net.SplitHostPort, strconv and the other formats of numbers, strings.ToLower, the tracer,
-- propagator and SDK of OpenTelemetry, sony/gobreaker, Redis, the gRPC server with its metadata, what
-- encoding/json writes, crypto/rand and the clock. What is assumed of one is a hypothesis of the
-- theorem.
--
-- What is left out. Flush, Hijack and Push of the response writers, the JSON encoding of bodies, the
-- reflection test for typed nil limiters, the accessors of the runtimes, the wrapper around otelhttp
-- and what slog does with an entry. Log lines are left out but for the access log and those of gRPC
-- calls, and so are panics in hooks. Around a gRPC call the start of a span and the log line may panic,
-- and what else is outside may not. Of the answers of a handler, the informational ones (1xx) do not
-- stand in the response, and the checks of net/http on status codes are left out. The Helm chart under
-- charts/ and the scripts are not Go code.
pub mod Prelude
pub mod Golang
pub mod Server
pub mod Middleware
pub mod Telemetry
