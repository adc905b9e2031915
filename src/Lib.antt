-- ===== src/Lib.antt =====
-- abc-auth-svc: a verification library for the authentication service of an ABC cluster.
--
-- The service (internal/authsvc, in Go) stands between a reverse proxy, the command-line client and
-- four upstreams: PocketBase (the slots and groups), Nomad (tokens, roles and variables), MinIO
-- (passwords and users) and JupyterHub (tokens and running servers). A browser has a signed session
-- cookie, the client a Nomad token or an opaque bearer token, and an operator a shared token.
--
-- How a handler is modelled. `Http` gives a handler as a function of the world: the calls made so
-- far, the magic codes and the level variable. It replies with the body of a success or with a
-- status and a JSON object, at the same early returns as the source. Each call of an upstream, of
-- the host's files and of the random source is recorded (`Upstreams.Call`), and answered by the
-- parameter `Env`, whose answers may depend on every call before: so a theorem that is proved for
-- all `Env` holds for every behaviour of the upstreams, errors and other clients included. Errors
-- that the source only logs are answers nobody reads (`tell`). A theorem on the calls of a handler
-- starts from a history whose calls all satisfy the predicate, as the empty history does, and says
-- so of the history afterwards.
--
-- The files and the code that they are about:
--   Base, Text: lists, byte strings and numbers over the native numbers; the functions of `strings`,
--     `strconv` and `net/url` that the service calls, on bytes.
--   Crypto: `encoding/hex`, and the interfaces of base64 and the digests, which are parameters.
--   Session: session.go, `sessionVerifier.make`, `verify`.
--   Forward: validate.go, `decideValidate` and `/validate`, `/validate-optional`, `/validate-shadow`;
--     the cookie of session.go.
--   Login: auth.go. Magic: magic.go and minio_sso.go. Identity, Verify: identity.go and verify.go.
--   Workbench: workbench.go. Claim: claim.go, with the steps of claims that overlap in
--     Claim.Race. Render, Slots: render.go and slots.go.
--   Exchange: exchange.go. Secrets: secrets.go. Keys, KekWrap: keys.go and kekwrap.go, with the
--     interface of HKDF and AES-GCM as a parameter.
--   Manage: manage.go (CredSource), manage_list.go (Listing), manage_rotate.go (Rotate) and
--     manage_lifecycle.go (Lifecycle). LogLevel: loglevel.go and the level names of config.go.
--   Middleware: request ids, the status writer, Recoverer and AccessLog of middleware.go. Naming: naming.go.
--   Routes: the table of routes of server.go. Health: health.go. Service: the handlers behind the
--     routes and, in Service.Chain, the middleware around them, so that the service is one function
--     of a request and of the world.
--   Files: creds_files.go, on a disk of directories and files; Files.Replay has the disk after the
--     calls of a handler. Wiring: upstreams.go, the server that a configuration gives, and the mocks.
--   Config: config.go, with the command line in Config.Flags. Redact: redact.go and
--     log.go, with child loggers in Redact.Logger. Tracer: debug.go. Startup: main.go and the banner
--     of server.go.
--   Diag: diag.go, with the host's part of the report in Diag.Host.
--   Upstreams: the records of pocketbase.go, nomad.go, jupyterhub.go and upstreams.go.
--   PocketBase: the client of pocketbase.go and pocketbase_kek.go: the token and the retry in
--     PocketBase, the operations in Records, the slot states in Cache, where Overlap has the steps
--     of callers whose lookups overlap. Replay makes the calls of a history with this client, and
--     gives the `Env` in which it is the store of the handlers.
--   Clients: nomad.go, nomad_admin.go, jupyterhub.go, minio.go and minio_admin.go.
--   Http.Calls, Http.Yields, Http.Finds, Http.Triple, Http.Codes: rules for which calls a handler
--     makes, what a success has found out, and at which of the calls, what the history of calls
--     satisfies, and which codes are stored.
--     The child modules Calls are about the state that the calls of a handler give a slot.
--   Scenario and Examples: a small concrete world, in which each theorem is applied.
--
-- Bounds. Every loop is structural on a list or a byte string; no definition runs on fuel but the
-- printer of decimals, which has as much fuel as the number is large. An `int64` has its sign apart
-- (`Text.Decimal.Int64`), and parsing refuses what does not fit, as `strconv.ParseInt` does; the
-- version of a key is an int that wraps (`Text.Int.ℤ`). Times are in whole seconds, so a magic code
-- expires up to a second later than in the source. Trimming and lower case are those of ASCII, and
-- a request id is read by bytes.
--
-- The clients. A network is a function from the requests sent so far and the next one to an answer,
-- which may be an error; it also says how long the answer takes. JSON, the regular expressions of
-- `valuePatterns` and the run of a command are parameters, too. The clock of the PocketBase client
-- advances by each answer and by a pause after each call.
--
-- Not modelled: calls that overlap, but for the lookups and invalidations of the state cache
-- (PocketBase/Cache/Overlap) and the claims (Claim/Race): elsewhere the operations of a store are
-- steps, and the mutex of the codes appears as the atomicity of the operations that it guards; time
-- limits, signals and shutdown; the redirects of the ServeMux to a cleaned path; the HTML of the
-- login form; headers that carry no decision.

pub mod Base
pub mod Claim
pub mod Clients
pub mod Config
pub mod Crypto
pub mod Diag
pub mod Examples
pub mod Exchange
pub mod Files
pub mod Forward
pub mod Health
pub mod Http
pub mod Identity
pub mod KekWrap
pub mod Keys
pub mod LogLevel
pub mod Login
pub mod Magic
pub mod Manage
pub mod Middleware
pub mod Naming
pub mod PocketBase
pub mod Redact
pub mod Render
pub mod Routes
pub mod Scenario
pub mod Secrets
pub mod Service
pub mod Session
pub mod Slots
pub mod Startup
pub mod Text
pub mod Tracer
pub mod Upstreams
pub mod Verify
pub mod Wiring
pub mod Workbench
