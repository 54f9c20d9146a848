-- ===== src/Lib.antt =====
-- Stile is a gateway that stands as one MCP server in front of many upstream servers. This library
-- models its core: who a caller is and which tools it may use, where a tool call goes, which limits
-- hold it back, how a failing upstream is retried and cut off, and what is recorded of a call.
--
-- How the parts interact. A request is authenticated (Auth) against the caller store (Auth/Store),
-- which a cache may stand in front of (Auth/Cache). The proxy (Proxy) takes the caller, resolves
-- the tool in the route table (Router), asks a rate limiter (Policy), rewrites the tool's name and
-- sends the request through the upstream's transport, which is wrapped with retries and a circuit
-- breaker (Resilience).
--
-- Where the program is modelled. Names are those of the source, in the spelling used here.
--
-- Resilience/Breaker.antt: internal/resilience/circuitbreaker.go, one function per method; Abstract
-- has the machine it implements and Runs sequences of calls. Retry.antt: retry.go. RoundTrip.antt:
-- RoundTrip of resilient.go as a loop on the attempts left, with what other goroutines do to the
-- breaker as functions of the environment. The loop runs max_attempts times at most, which is its
-- bound in the source.
--
-- Router.antt: internal/router/router.go, a RouteTable as its entries and upstreams; Names.antt has
-- the prefixes, Discovery.antt discoverTools; the table takes what discovery answers as `discover`.
-- Lookup, Listing, Changes, Operations and Removal are about the table.
--
-- Auth/Roles.antt, Authenticate.antt and Admin.antt: internal/auth/auth.go and the token test of
-- oidc.go. Oidc.antt: the validator of internal/auth/oidc.go, a call at one moment. Glob patterns,
-- SHA-256, the environment, the JWT verifier and the userinfo endpoint are arguments. Store.antt:
-- internal/auth/store.go, its tables as lists of rows and each statement as a function on them.
-- Cache.antt: internal/auth/cached_store.go. Requests.antt has its operations as data.
--
-- Oauth.antt and below: the OAuth connections of internal/auth. Tokens.antt is the SQLite store of
-- tokenstore.go, Refresh.antt oauth_refresh.go and exchangeCode, Resolver.antt oauth_resolver.go,
-- Flow.antt the callback and Connect.antt the start of the flow in oauth_handler.go; Events.antt
-- has them in any order. The token endpoint, the JWT library, HMAC-SHA256 and base64 are arguments.
--
-- Policy/Local.antt: internal/policy/ratelimit.go over a type of token buckets. Policy/Redis.antt:
-- internal/policy/redis.go, its Lua script included; the member that the script adds is an
-- argument, since Lua and Redis may give two checks the same one. Limits.antt has what they share,
-- with the rate limits of internal/config/config.go that the limiters take.
--
-- Config.antt and below: internal/config/config.go. Raw.antt has what the YAML decoder fills,
-- Values.antt what convert returns, Error.antt the errors; Validate is validate, Limits
-- ParseRateLimit, Resilience, Upstreams, Sections and Convert are convert, LoadBytes and the order
-- of roles. Durations, floats, YAML and glob patterns are arguments. The order in which Go ranges
-- over a map is that of a list, which is any.
--
-- Proxy/Params.antt, Call.antt and Listing.antt: internal/proxy/proxy.go, with the rate limiter,
-- the token resolver, the connection checker and the transports as functions.
--
-- Rpc.antt: internal/jsonrpc/jsonrpc.go, with encoding/json as a record of functions; Exact and
-- RoundTrip have its theorems. Server.antt: the handler of POST /mcp in internal/server/server.go,
-- from the body to what is written, with the route table as it stands during the request.
--
-- Transport/Http.antt: RoundTrip of internal/transport/http.go by what net/http answers.
-- Transport/Sse.antt: internal/transport/sse.go and readFinalResponse of transport.go, whose loop
-- has rounds: more than the lines of the stream are enough.
--
-- Health.antt: the checker of internal/health/health.go.
--
-- State and errors. A method that holds a mutex throughout is one step. State is a record that is
-- passed on; an error is an Option, a sum or a data type. Times are natural numbers from a fixed
-- origin. Counters are unbounded: a Go int64 would take longer to overflow than a process lives.
--
-- What is not modelled, and why. The SQL of the other stores and the admin and wrapper handlers are
-- calls into libraries; metrics, spans and log lines leave the program's state alone. The server's
-- other routes, the health store and the stdio transport are not a part of it. ComputeBackoff draws
-- a random delay in floating point, and the wait is an input. A lookup of the cached store runs to
-- its end before the next operation starts.
pub mod Prelude
pub mod Resilience
pub mod Router
pub mod Auth
pub mod Config
pub mod Policy
pub mod Proxy
pub mod Rpc
pub mod Server
pub mod Transport
pub mod Oauth
pub mod Health
