-- ===== src/Lib.antt =====
-- Verification of proxify: an HTTP proxy that filters, rewrites and logs what passes through it, a
-- relay of TCP connections, a replay of the logs, and a generator of OpenAPI specifications.
--
-- The HTTP proxy (proxy.go) calls `ModifyRequest` and `ModifyResponse` for each message. They
-- evaluate filters over maps that pkg/util makes, note a match status in the user data of
-- pkg/types, rewrite the message, and hand it to the logger's queue. A worker of pkg/logger takes
-- it from there, writes a structured entry, and gives the dumps to its stores. The files that the
-- file store writes are what cmd/replay and cmd/swaggergen read. The relay (socket.go), with its
-- command cmd/mitmrelay, copies between two connections by two pipes that end together.
--
-- Common holds Boolean tests, lists and signed numbers. Go models what the program uses of Go:
--   Outcome (a value, an error or a panic), Strings (lists of bytes), Maps (association lists, in
--   the order of one iteration), Disk (files), Format (`fmt.Sprint`) and Http (messages whose
--   bodies are readers: the bytes left, and the error behind them).
-- Types is pkg/types, Util is pkg/util/util.go.
-- Logger is pkg/logger: Env (options and interfaces), Setup (`NewLogger`), Queue (`LogRequest`,
--   `LogResponse` and the channel), Worker (`AsyncWrite`; Worker/Entries is its abstract log),
--   Storing (`storeWriter`), Running (the callers, the worker and `Close` by turns), and Clients
--   (`New`, `Save`, `Write` and `Close` of file, kafka, elastic, jsonl and yaml).
-- Proxy is proxy.go: Replace (`MatchReplaceRequest`, `MatchReplaceResponse`), Modify
--   (`ModifyRequest`, `ModifyResponse`), Encoding (`removeBrEncoding`), Dns (the mapping that
--   `NewProxy` and `dnsserver` of cmd/mitmrelay read), Setup (`NewProxy`, `getRoundTripper`),
--   Serving (`Run`) and Pages (`hijackNServe` and the handlers of `getProxifyServerMux`).
-- Exchanges joins Proxy and Logger: what a request and its response leave in the log.
-- Socket is socket.go: Options (`Clone`), Dialing (`Run` and `Proxy`), Pipe (`pipe`), Relays and Servers
--   (`main`, `httpserver` and `dnsserver` of cmd/mitmrelay), and Ending (`err` and `fullduplex`;
--   Ending/Termination bounds its runs).
-- Replay is cmd/replay/replay.go: the visitor of the files, the walk, the handler, and Main
--   (`main`). Stored joins it to Logger.
-- Swaggergen is pkg/swaggergen with cmd/swaggergen: Schemas (schema.go), Responses
--   (content.go, response.go), Methods (parameter.go, method.go, path.go), Specs (spec.go, info.go,
--   servers.go), Documenting (which methods a specification has) and Generating (`ReadLog`,
--   `WriteSpec`, `Generate` and `main` of cmd/swaggergen).
-- Runner is internal/runner with `main` of cmd/proxify: Env (the options, and how a start ends),
--   Flags (`ParseOptions`), Exports (the export configuration), Outputs (the name of the output
--   file), Ready (what holds of the options), Starting (`NewRunner` and `Run`), Main, and Served
--   (what is behind a program that serves).
-- Certs is pkg/certs/mitm.go: how the certificate of the proxy is loaded or made (`LoadCerts`).
-- Tests holds runs and the theorems at concrete inputs.
--
-- Libraries are parameters: records of functions (HttpLib, LogLib, ProxyLib, PipeLib, ReplayLib,
-- CertLib, RunnerLib, SetupLib, ServeLib, PageLib, DialLib, YamlLib, YamlEncoder, MainLib), with
-- what is relied on as hypotheses. State is passed on explicitly: the request or response, the
-- disk, the state `W` behind a store. The queue, the running logger and the end of a relay are
-- step relations. Strings are taken to be ASCII where case or space matters.
-- Loops are recursion on lists. The only fuel is that of `decimal`, n + 1 for a number n, since
-- each round divides by ten; the client of replay gives up after ten requests by itself. Counters of
-- bytes wrap at 2 ^ 64; lengths of logged messages are not bounded.
--
-- Not modelled: what is printed; the version check and the banner; generated certificates and the
-- MITM configuration, which are library calls. The proxy hands the worker the pointer to a request
-- that it goes on to send; the model hands a copy, so that a race for the body is not in it.
pub mod Common
pub mod Go
pub mod Types
pub mod Util
pub mod Logger
pub mod Proxy
pub mod Socket
pub mod Replay
pub mod Swaggergen
pub mod Certs
pub mod Exchanges
pub mod Runner
pub mod Tests
