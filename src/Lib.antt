-- ===== src/Lib.antt =====
-- A verification library for gorp, a reverse proxy: a listener hands a request to the router, which
-- takes a route; the route's selector chooses a backend, the path is stripped, the middlewares wrap
-- the handler, and the backend forwards the request over its transport.
--
-- Files and sources (paths from the repository's root):
--   Prelude, Prelude/*     tests, lists, integers and texts that the other modules share
--   Http                   the header maps, requests and responses of net/http that the code uses
--   Value                  pkg/helper/parser.go: typed reads of a decoded map
--   Backend, Backend/*     pkg/backend/backend.go: TryAcquire, Release, Available, State, the
--                          handlers of New and the health checks; Capacity has the counter with its
--                          atomic operations interleaved
--   Transport, Transport/* pkg/backend/transport.go: NewTransport, the retries, the authentication
--   Selector, Selector/*   pkg/selector: the nine strategies and the factory
--   Routing, Routing/*     pkg/routing: route.go, router.go, wildcard.go, middleware.go and, in
--                          RateLimiter, builtin_rate_limiter.go; in Guard, the basic, token and
--                          digest authentication (builtin_auth_*.go), builtin_secure.go, and CORS and
--                          the IP whitelist of builtin_middleware.go; in Headers, the edits of
--                          builtin_request_headers.go, builtin_response_headers.go and the rest of
--                          builtin_middleware.go
--   Listener/Socks5/*      pkg/listener/socks5.go: a connection from its greeting to the tunnel
--   Listener/Tcp/*         pkg/listener/tcp.go: a connection, its first bytes and its backend
--   Listener/Proxy/*       pkg/listener/proxy.go: the users, the upstream proxy, a request's course
--   Multi, Multi/*         pkg/httpmulti: Conn, SplitListener and Serve of main.go, and cidr.go
--   Server, Server/*       pkg/server/server.go: the limits on connections and bodies; in Lifecycle,
--                          New, the registrations, the calls of Shutdown and the wait of Run as
--                          interleaved steps;
--                          in Build, pkg/server/builder.go
--   Config, Config/*       pkg/config: config.go, validate.go (Check, Middleware, Key, Address,
--                          Validate) and loader.go (Load)
--
-- A Go method is a function from the state before it to the state after it and the result; an error
-- is a constructor of the result or `none`. A mutex makes a method one step. The atomic operations
-- of a backend are single steps only in Backend/Capacity; elsewhere a method runs undisturbed, and a
-- selection reads the clock once. Times are natural numbers of nanoseconds, an int or int64 is an
-- integer without overflow, and a Go string is a text, so that invalid UTF-8 is left out.
--
-- Functions of the Go library and of third parties are parameters: filepath.Match, url.Parse,
-- net.SplitHostPort, strconv, time.ParseDuration, rand.Intn, the hash sums, base64, sort.Slice, the
-- decoders of YAML and JSON, and what a backend answers. A map that Go runs through in any order is
-- a list. Loops are recursions on the list or on the number of turns that are left; the retries run
-- on the attempts that are left, at most the retries and one more. The parser of the digest header
-- runs on the size of its text as fuel, which every turn makes smaller, so that it never runs out.
--
-- A request that the forward proxy hands on is the one that its Director leaves; what
-- httputil.ReverseProxy then changes in it, and in the requests to a backend, is not modelled.
--
-- Not modelled: sockets, TLS, the tunnels, logging and metrics, the dynamic and OpenAPI
-- middlewares, the OpenID and tracing middlewares, the HTTP listeners, and how the server starts each
-- listener.
mod Prelude
pub mod Http
pub mod Value
pub mod Backend
pub mod Config
pub mod Listener
pub mod Multi
pub mod Routing
pub mod Selector
pub mod Server
pub mod Transport
