-- ===== src/Lib.antt =====
-- dapper-lite: distributed tracing in C, from a span in a program to the analysis of stored traces.
--
-- A program creates, annotates and finishes spans (src/core); a sampler decides which traces are
-- kept (src/sampling). An exporter takes the spans: `exporter_submit`
-- serializes a span (src/wire) into a slot of a ring buffer, and the exporter's thread takes the
-- slots out and writes them to a file or sends them as datagrams (src/export). A collector
-- receives datagrams, checks and decodes them, gathers the spans of each trace in a hash table,
-- and flushes the traces that have timed out to an append-only log (src/collector). The analysis
-- reads the log, rebuilds the tree of each trace, looks for its critical path, groups spans by name
-- and writes JSON (src/analysis).
--
-- Which file models which part:
--   Core, Core/Strings    include/dapper/types.h, and the C strings in its arrays
--   SpanLife              src/core/span.c: span_annotate, span_finish, span_duration_ns
--   Hierarchy             src/core/span.c: span_create; src/core/context.c:
--                         span_create_from_context; src/core/trace.c: trace_create_with_id,
--                         trace_destroy; src/analysis/query.c: rebuild_hierarchy
--   Traces                src/core/trace.c: trace_create, trace_create_sampled
--   Context               src/core/context.c: context_inject, context_extract
--   ByteOrder             include/dapper/byteorder.h, for hosts of both byte orders
--   Wire                  src/wire/serialize.c; Wire/Layout is the format of include/dapper/wire.h,
--                         without the code's functions
--   Ring                  src/export/ring_buffer.c; Ring/Queue is the bounded queue it stands for
--   Ring/Threads          the same file, with a pushing and a popping thread
--   Sampler               src/sampling/sampler.c
--   Exporter              src/export/exporter_thread.c, file_sink.c, udp_sink.c
--   Collector             src/collector/assembler.c, protocol.c, internal.h; Collector/Config is the
--                         configuration of include/dapper/collector.h; Collector/Extended says
--                         what an insertion is to do without the code's operations
--   Receiver              src/collector/receiver.c; Receiver/Create has its creation;
--                         Receiver/Fates says of each datagram how it is to end
--   Storage               src/collector/storage.c, and the reader and the queries of
--                         src/analysis/query.c
--   Daemon                src/collector/main.c, include/dapper/collector.h
--   CriticalPath          src/analysis/critical_path.c, span_walk.h
--   Aggregation           src/analysis/aggregation.c; Aggregation/Statistics has the last loop
--   Json, Json/Document   src/analysis/export_json.c; Json/Lexer and Json/Parser are a reader of JSON
--                         that knows nothing of the program
--   Memory, Prelude       bounded copies of bytes; lists, tests and outcomes that all parts share
-- The functions keep their names, but that the prefixes `ring_buffer_` and `exporter_` are left
-- to the modules. A static function or a loop inside of one has a definition of its own.
--
-- A call is a function from the state before to an Outcome: `ok` with the state after and the
-- results, `failed` for the error code, or `fault` for an access outside an object. A buffer is
-- the list of its bytes, and every read and write is checked against its length. A `uint64_t`
-- counter wraps at 2 ^ 64; the signed ones (`span_count`, `window_count`) count without a limit. A
-- time is an argument, and so is the success of a write to a file or a socket, in the way in which
-- the operating system decides it. Where pointers between spans matter, spans lie in a heap, and an
-- address is an index. Arithmetic on `double` is a parameter, a record of the operations that the
-- code uses.
--
-- Some loops run on fuel. The reader of the log is given a turn more than the log has bytes, and a
-- turn that goes on takes 12 bytes or more. `flush_traces` is given a turn more than there are
-- traces in the table, and each turn but the last takes one away. The drain of the exporter has as
-- many turns as the ring has slots, one of which is always empty. A walk along siblings or along the
-- owned spans of a trace may take as many steps as there are spans in the heap, and the proofs show
-- that these are enough.
--
-- The answers of the operating system and of inet_pton are arguments: whether a socket is opened and
-- bound, whether a thread is created, what recvfrom gives, what a log has when it is opened.
--
-- Not modelled: sockets and files as such, threads but for the two of a ring, failed allocations
-- but for the array of the JSON export, null arguments but for some, the freeing of samplers and
-- tables, the rate and the text of a sampling reason in a trace, the sleeping loop of the flush
-- thread, signals and the command line of the collector, the wrappers of clocks and of
-- thread-local storage in src/core, and the programs of examples, benchmarks and tests. Two threads
-- of a ring take their steps in one memory, as the release and acquire order of the indices
-- allows.
pub mod Prelude
pub mod Memory
pub mod ByteOrder
pub mod Core
pub mod Wire
pub mod Context
pub mod SpanLife
pub mod Hierarchy
pub mod Sampler
pub mod Json
pub mod Traces
pub mod Aggregation
pub mod Ring
pub mod Exporter
pub mod Collector
pub mod Receiver
pub mod Storage
pub mod CriticalPath
pub mod Daemon
mod Tests
