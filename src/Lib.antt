-- ===== src/Lib.antt =====
-- Models of couper, an API gateway written in Go, and theorems about them.
--
-- The program and its parts. main.go and command/ read a configuration (config/,
-- config/configload/) and build from it, in config/runtime/, for each server a router with its
-- handlers. A request enters server/http.go, which wraps the writer of the response
-- (server/writer/), and the router of server/mux.go finds a handler: an endpoint of an API, a files
-- block, a spa block, or the handler of an error. The handler stands behind the middlewares of
-- handler/middleware/ (CORS, allowed methods) and behind the list of its access controls
-- (accesscontrol/, handler/access_control.go), whose errors (errors/) go to the handler of the kind
-- of the error (handler/error.go). An endpoint sends its requests in the order of their references
-- (config/sequence/, handler/endpoint.go) to backends (handler/transport/), which may limit their
-- rate (handler/ratelimit/), be watched by a probe and get a token of a request of their own, which
-- the memory store (cache/) keeps.
--
-- The files. Each file names in its first lines the source it is about; its definitions carry the
-- names of the Go functions in snake case.
--   Base        shared names: Boolean tests, lists, strings, members of lists of strings, maps as
--               association lists, results.
--   RateLimit   handler/ratelimit/. Ring: ring_buffer.go (newRingBuffer, put, get). Config:
--               config.go (ConfigureRateLimits). Limiter: limiter.go (NewLimiter, slowTripper with
--               checkCapacity and countRequests, and the methods of RateLimit). A trip is one round
--               of the loop of slowTripper: `slow_trip` takes the limiter and the trip, and gives
--               the limiter afterwards with the reply, or a lock that does not return, or a panic.
--               RoundTrip and the goroutine that sends the request are left out, as they only pass
--               the trip and the reply through channels.
--   Cache       cache/memory.go (Set, Get, GetAllWithPrefix, Del, and one tick of gc).
--   Errors      errors/error.go: an error with what it wraps, the methods that derive one from
--               another, Kinds, HTTPStatus and LogError, whose change of the wrapped error is part
--               of its result.
--   Access      List: AccessControl.ServeHTTP of handler/access_control.go with ListItem.Validate of
--               accesscontrol/ac.go. Permissions: accesscontrol/permissions.go. TokenSource:
--               accesscontrol/token_source.go. Jwt: accesscontrol/jwt.go (Validate, validateClaims,
--               getGrantedPermissions and what it calls), with Mapped, Closure and Claims about it.
--               BasicAuth: basic_auth.go and basic_auth_algos.go of accesscontrol/, with File,
--               Validate and Apr1 about it. Jwk: the entries of a JWKS document and GetSigKeyForToken
--               of accesscontrol/jwk/, with Choice about it.
--   Sequence    config/sequence/sequence.go with buildSequences of
--               config/configload/endpoint_sequence.go and fillChannels of handler/endpoint.go. The
--               items, which point to each other, are a store from names to items.
--   Endpoint    produce of handler/endpoint.go with drainInputChannels, hasSequenceKind and
--               passToOutputChannels, over the items of Sequence; Known and Order are about it.
--   Validate    validateBody of config/configload/validate.go: the definitions block, with Fresh and
--               Unique about it, and in Patterns the endpoints with JoinOpenAPIPath of utils/path.go.
--   Handler     Errors: handler/error.go, which handler serves an error.
--   Middleware  AllowedMethods, Cors: allowed_methods.go and cors.go of handler/middleware/.
--   Mux         server/mux.go. Paths: the base paths (matchesPath, isAPIError). Order:
--               sortPathPatterns. Routes: mustAddRoute. Find: FindHandler.
--   Transport   Probe: one round of handler/transport/probe.go. TokenRequest: GetToken of
--               handler/transport/token_request.go. Headers: the header that RoundTrip of
--               handler/transport/backend.go sends, with Sent about it.
--   Writer      Gzip: server/writer/gzip.go, its state and the calls of the writers below it.
--               Response: response.go and cookies.go of server/writer/, with Count and Body about
--               them.
--   SyncedJson  json/synced_json.go (NewSyncedJSON, fetch, and the loop of sync with the requests of
--               Data), with Pace and Stale about it. A step is one round of the loop: the select
--               chooses among the timers, which carry the time at which they fire, and a request.
--   Merge       config/configload/merge.go. Backends: checkForMultipleBackends. Definitions:
--               mergeDefinitions. Settings: mergeSettings. Parts: the groups of the blocks of a
--               server. Servers: mergeServers. Sorted, Fits, Added, Last, Keyed and Labels are about
--               them.
--   Tests       runs on concrete inputs.
-- They meet where the code does: ConfigureRateLimits makes the ring buffers of the limiter, the
-- token request reads and sets the memory store, the access control list and the endpoint derive
-- their errors as in Errors, the endpoint runs the items of a sequence, the gzip writer changes
-- a header as the CORS middleware does, the keys of a token come from the synced object, and the
-- proxies that the definitions leave are taken by the servers.
--
-- State and inputs. A method that changes its receiver returns the receiver afterwards; what several
-- goroutines share is passed from one step to the next, in the order in which they hold the mutex.
-- Readings of the clock, results of other servers and writers, and the choices of a select are
-- inputs of a step. Maps are association lists, whose order is the order of a range over them.
-- Strings are lists of bytes, with the case mappings and the white space of ASCII.
--
-- Numbers. uint has 64 bits, and the counters of the limiter, the ring buffer and the probe wrap
-- around at 2 ^ 64. Times and durations are nanoseconds from 0 on (seconds in the memory store), and
-- stay below the ranges of their types; where Go compares a negative difference, the truncated one
-- gives the same test.
--
-- Fuel. Most loops follow a list. `Jwt.add_mapped_permissions` gets one more than the number of
-- mapped values, each of which is added at most once. `Sequence.dependencies` gets two more than
-- the number of names, which is enough where no item depends on itself through others.
-- `has_ancestor`, `add`, `build` and `fill_channels` of Sequence take their fuel as an argument,
-- since their loops follow pointers that may form a cycle; `none` says that it ran out.
--
-- Parameters. time.ParseDuration; sort.Slice in the router, with what it does to a list as the
-- hypotheses of one theorem; the match of a route by gorilla/mux, of which one theorem states
-- the documented behaviour of Path and PathPrefix as hypotheses; the Validate of each access
-- control; the evaluation of expressions; the handlers; the canonical form of a field name; the parsing of a token and the comparison
-- of claims (golang-jwt, go-cmp); the MD5 digest and the check of a bcrypt hash; the reader of a
-- header (net/textproto) and the number of a status line; the requests of the producers; the blocks
-- of hclsyntax and path.Join; JSON, base64 and certificates; the unmarshaller of a
-- synced object; the evaluation of an attribute as a string; the
-- address of a variable in a merge of one file.
--
-- Not modelled: the loading of the configuration (config/configload/) but for the sequences, the
-- checks and the merges above (mergeDefaults and absPath take expressions apart), the jobs
-- (definitions/job.go), the building of handlers (config/runtime/), the evaluation of HCL (eval/), the
-- choice of the response of an endpoint (handler/endpoint.go), the rest of the transport to
-- a backend (handler/transport/), SAML and OAuth2, validation by OpenAPI, TLS, logging and
-- telemetry. Most of these call libraries whose code is not here at each step.
pub mod Base
pub mod RateLimit
pub mod Cache
pub mod Errors
pub mod Access
pub mod Handler
pub mod Middleware
pub mod Mux
pub mod Transport
pub mod Writer
pub mod Sequence
pub mod Endpoint
pub mod Validate
pub mod SyncedJson
pub mod Merge
mod Tests
