-- ===== src/Lib.antt =====
-- Verification of the eBPF APM tracing backend.
--
-- The program receives raw events from eBPF probes, turns each into a span, reads the payload's
-- protocol, samples the spans and stores them. The parts and their files:
--
-- - Model: pkg/model/trace.go. Span and Event hold the records and enumerations, Trace holds
--   `BuildTraceTree`, Convert holds `ConvertRawEventToSpan`. A span's numbers are natural numbers
--   with the bounds of their Go types left to the code that makes them; an int32 is its bit pattern.
-- - Redis: `RedisParser` of pkg/protocol/parser.go, one definition for each method. Redis.Parser has
--   the code, Redis.Wire an encoder of requests.
-- - Envoy: pkg/protocol/envoy.go, one definition for each method, on slices that have a capacity
--   behind their length. Envoy.Framing has the encoder of frames.
-- - Sampling: pkg/sampling/sampler.go, one module for each of the four samplers.
-- - Correlator: pkg/trace/correlator.go. Correlator.Handlers has `ProcessEvent` and its handlers,
--   Correlator.Expiry `cleanupExpired`. Spans are shared by pointers there: they live in a store, and
--   requests name them by their place in it. A call is one step. The span of an event is an argument,
--   as `ConvertRawEventToSpan` and `Parser.Parse` leave it.
-- - Storage: pkg/storage/clickhouse.go. Storage.Writer has `SaveSpan` and the steps of
--   `batchWriter`; a sequence of actions interleaves them. Storage.Query has the statements of the
--   queries, Storage.Reader what becomes of their rows, Storage.Schema has `InitSchema`. The database
--   driver is a parameter for each of them (`Driver`, `Reader`, `exec`).
-- - Anomaly: pkg/anomaly/anomaly.go. Anomaly.Detector has `RecordSpan`, `IsAnomaly` and the clean-up
--   of old entries. A call holds its locks to its end, so it is one step.
-- - Flame: pkg/flamegraph/flamegraph.go. Flame.Frame makes the graph of a trace, Flame.Folded,
--   Flame.Svg, Flame.Stats and Flame.HotSpots have its four outputs. A span with its children is a
--   tree of Model.Tree; `sort.Slice` is a parameter (`Sorter`).
-- - Compression: pkg/compression/compressor.go. Compression.Spans has `CompressSpan`, `CompressTrace`
--   and the way back, Compression.Signature `ComputeSubtreeSignature` and the cache of signatures,
--   Compression.Similar `FindSimilarTraces`. zstd and JSON are a parameter (`Codec`), and so is the
--   order in which a `range` visits the cache. `CompressTrace` runs on a fuel for the trace's depth.
--   A nil map of tags and an empty one are one list, so an argument says which spans have a map.
-- - Ebpf: pkg/ebpf/tracer.go. Ebpf.Record has `parseRawEvent`, Ebpf.Layout an encoder of its events,
--   Ebpf.Padding the layout that bpf/network_trace.bpf.c sends; Ebpf.Tracer has `Start`, `Stop`, the
--   rounds of `pollEvents` and the receives of the workers. What the kernel yields is an argument.
-- - Http: `HTTPParser` of pkg/protocol/parser.go. Http.Match has its two regular expressions,
--   Http.Parser its methods, Http.Wire an encoder of requests.
-- - Grpc: `GRPCParser` of pkg/protocol/parser.go.
-- - Dispatch: `Parser.Parse` of pkg/protocol/parser.go, which takes off the Envoy framing and calls
--   the parser of the event's protocol.
-- - Api: pkg/api/server.go. Api.Handlers has the handlers that ask the store, Api.Flames
--   `getFlameGraph`, Api.System and Api.Reports the reports on the other parts, Api.Routes the
--   dispatch. Matching a path to its route and binding a query are the web framework's, so a request
--   is given with its route and its parameters. `GetTraceTree`, which the store lacks, is a parameter.
--   Each part that the server reads may be nil.
-- - Command: `handleSpan` of cmd/main.go, by which each span of the correlator goes to the sampler and
--   then to the store.
-- - Golang: what these use of the language: results with an error or a panic, slices, 64-bit
--   counters that wrap, maps, text functions, floating-point numbers.
-- - Prelude: the libraries' names, Boolean tests on numbers and functions on lists.
-- - Tests: runs at concrete inputs, with an instance of each theorem that has hypotheses.
--
-- Parameters. Code outside the repository is an argument: Unicode case mapping and splitting at
-- white space (`Unicode`), floating-point arithmetic (`Float`), the clock and the random draws (an
-- argument of each call), the database driver (`Driver`, `Reader`), `net.ParseIP`, the digest of
-- SHA-256, `sort.Slice` (`Sorter`), zstd and JSON (`Codec`), the order of a `range` over a map,
-- whether encoding/json takes the data of an answer, what promhttp answers, and what the kernel's ring
-- buffer yields. `int` has 64 bits; a sum that reaches 2^63 is negative in Go, and as a
-- bound of a slice it panics. `make` of strings panics above 2^48 bytes, as on linux/amd64.
--
-- Fuel. The two `ParseMultiple` loops run on the length of the payload and one round more; each
-- round takes at least one byte. `CompressTrace` runs on the depth of the trace. The loops
-- return `none` where the fuel runs out, and `CompressTrace` an error, which it has no other of.
--
-- Not modelled: starting and stopping the HTTP server (pkg/api) and matching its routes, loading the
-- BPF programs (`NewTracer` of pkg/ebpf), reading the YAML configuration, posting alerts
-- (pkg/anomaly), log output, `main` and `eventLoop` (cmd/main.go), the demo services, and the
-- interleaving of goroutines inside one call.
pub mod Prelude
pub mod Golang
pub mod Model
pub mod Envoy
pub mod Redis
pub mod Http
pub mod Grpc
pub mod Dispatch
pub mod Sampling
pub mod Correlator
pub mod Storage
pub mod Api
pub mod Command
pub mod Anomaly
pub mod Flame
pub mod Compression
pub mod Ebpf
pub mod Tests
