-- ===== src/Lib.antt =====
-- secretstash: one-time self-destructing secret links.
--
-- The program wraps a secret under a random token: the server seals it with a key derived from the
-- token, keeps the sealed box in memory for a number of reads and a time to live, and leaves a
-- tombstone when it is gone. A token can be split into shares, any k of which rebuild it.
--
-- Parts and files:
-- - internal/shamir/shamir.go: Shamir/Gf (gfMul, gfInv, gfEval), Shamir/Raw (splitRaw, combineRaw),
--   Shamir/Share (Split, Combine, encodeShare, decodeShare). Shamir/Field and Shamir/Lagrange hold the
--   interpolation over any field of characteristic 2, and Shamir/Gf/Instance applies it to bytes.
-- - internal/crypto/crypto.go: Crypto (NewToken, ParseToken, EncodeToken, LookupID, Seal, Open). Memory
--   has Wipe, on slices that share a backing array.
-- - internal/store/store.go: Store (New, Put, Take, Peek, Revoke, Len, Stats, purge and their helpers).
--   Store/Calls has histories of operations, Store/Cases their branches, Store/Spec what the store
--   promises, as a map of values. Store/Janitor is internal/store/janitor.go (Janitor).
-- - internal/api: Api and Api/Handlers (handleWrap, handleUnwrap, handlePeek, handleRevoke, handleHealth
--   and the rate limit of the middleware), Api/RateLimit (rateLimiter), Api/Counters, Api/Labels and
--   Api/Exposition (metrics), Api/Http (Routes, noStore, maxBytes, writeJSON), Api/Remote (remoteIP),
--   Api/Audit (the lines of the audit log). Api/Json has what the server and its client take from
--   encoding/json. Api/Http/Calls has the calls of the store that a request makes, Api/Http/Traffic the
--   requests and ticks of a server at work.
-- - internal/server: Tls (selfSignedCert, tlsConfig), Server (Run up to the sockets, loadTLS, isLoopback),
--   Server/Http (the parts of the site, SecurityHeaders, Recover, HandleMetrics), Server/Banner (banner),
--   Server/Lifecycle (Run from its start to its end). Web is internal/web/web.go (Handler, servePage).
-- - internal/cli: Cli (the flags, call, goneExit), Cli/Commands (unwrap, combine, peek, revoke, status),
--   Cli/Wrap (wrap), Cli/Run (runIO, the server command). Main is main.go, the whole program.
-- - Base holds the shared names, maps, bits, results; Tests has concrete runs.
--
-- A request to wrap draws a token (Crypto), seals the secret and puts the box in the store; a request to
-- unwrap parses its token, takes the entry under its lookup ID and opens it. A failure is counted and
-- charged to the address of the caller (Api/RateLimit, Api/Remote). The commands (Cli) call the server
-- (Api/Http) over a network, and split and combine the token on the side of the client (Shamir).
--
-- Modelling:
-- - A byte is a number below 256; parameters of type `byte` are reduced on entry. An `int` that the code
--   bounds is a natural number, the others are ℤ without overflow. Times are nanoseconds.
-- - The standard library is a parameter: Shamir/Codec (base64, decimal numbers, SHA-256), Crypto.Ciphers
--   (HKDF, AES-GCM, hex), Shamir/Raw.Rand (crypto/rand), Api.ParseDuration. Their laws are documented
--   behaviour: decoding undoes encoding, the alphabet has no dot, Open undoes Seal.
-- - Every operation of the store holds its lock from start to end, so a concurrent run is a sequence of
--   operations, each with the times that it reads from the clock.
-- - The loop of gfInv runs on fuel 9, for the 8 rounds of the exponent 254 and the test that ends it
--   (Shamir/Gf/Power).
--   All other loops are structural.
-- - The rate limiter computes with exact numbers, where the code rounds to float64.
-- - The mux of net/http, its request parsing, the JSON library, the flag parser, the network and
--   the terminal are parameters: Api/Http.Setup, Api/Json, Cli.Client, Cli.Network. A command leaves the
--   state of the server, its two streams and an exit code. The clock, the random source and the position
--   of a request in the order of all requests are arguments.
-- - Requests are served one after the other. handleUnwrap calls Open outside the lock of the store, so
--   Api/Http/Between lets other requests and ticks come between its two halves.
-- - A run of the server is a list of events (requests, ticks of the janitor) and an ending (the error of the
--   socket, or a signal). Sockets, signatures and srv.Shutdown are parameters: Tls.Certs, Main.Machine.
-- - Not modelled: the lines that other code logs (panics, the start of the shutdown), what happens to the
--   requests that are open when the server shuts down, and the scripts of the web pages, which are in
--   another language.
pub mod Base
pub mod Memory
pub mod Shamir
pub mod Store
pub mod Crypto
pub mod Api
pub mod Tests
pub mod Cli
pub mod Tls
pub mod Server
pub mod Web
pub mod Main
