-- ===== src/Lib.antt =====
-- zapwire: zap log shipping over the network. A model of its Go code, and what is proved of it.
--
-- The program. zap encodes a log; a preset turns it into a payload and frames batches of payloads for
-- its protocol (ndjson/, syslog/, fluent/); the Writer of writer.go, tuned by options.go, queues the
-- payloads, flushes them in batches over one connection, and reconnects with a backoff. otlp/ has an
-- exporter of its own: records are queued, cut into requests by number and by bytes, put into an
-- envelope of protobuf fields, and shipped with retries; responses tell what was rejected.
--
-- The files.
--   Common: names, lists, results, decimal numbers and signed integers over the native numbers.
--   Config: options.go. `Setting` is an option, `apply` its function, `configure` what `New` makes of
--     them, `normalize_config` is normalizeConfig.
--   Writer: writer.go. Its record is the Writer with the frames sent, the connections closed and the
--     errors reported; functions carry the source's names (handle_write_error is handleWriteError).
--     Queue has enqueue, drain, flush and flushAll, and Queue.Beside flushAll beside callers, as Sync
--     runs it; Reconnect has tryConnect and the bursts of
--     reconnectLoop; Calls has New, Write and Close as one goroutine sees them; System is the step
--     relation of callers, Close, the flush loop and the reconnect loop, under the lifecycle lock, with
--     each operation of enqueue on the queue or the counter as a step.
--   Otlp.Proto: otlp/proto.go, its writers (Append, Varint) and its scans (Read). Otlp.Envelope:
--     otlp/envelope.go. Otlp.Options: otlp/options.go. Otlp.Export: otlp/transport.go and `export` of
--     otlp/writer.go. Otlp.Batch: Write and the flush goroutine of otlp/writer.go. Otlp.GrpcStatus:
--     otlp/grpc_status.go. Otlp.Transport: `prepare` and `attempt` of otlp/grpc_transport.go (Frame,
--     Grpc) and otlp/http_transport.go (Http), against whatever the network does, and the endpoints
--     (Endpoint). Otlp.Attr: otlp/attr.go, the frame stack with its snapshots, the calls on it
--     (Marshaler), the trace context that they store (Sink), and the tree of values that they mean
--     (Tree). Otlp.Encoder: the fields and the metadata of otlp/encoder.go.
--   Syslog: syslog/framer.go (Framer), syslog/encoder.go and the header of syslog/syslog.go (Header).
--   Fluent: fluent/framer.go (Framer), the EventTime of fluent/proto.go (EventTime), and the encoder of
--     fluent/msgpack_encoder.go and fluent/msgpack_array.go (Msgpack): its frame stack, the calls that a
--     marshaler makes on it as a tree (Marshaler), and EncodeEntry (Entry), against the tree of maps and
--     arrays that they mean (Tree).
--   Ndjson: ndjson/ndjson.go.
--   Examples: the theorems at concrete inputs.
--
-- Conventions. A byte slice is a list of numbers. Counters are taken modulo 2^64, as uint64 counts, and
-- the backoffs keep the wrap-around of int64. Slice lengths, which memory bounds, and instants are not
-- wrapped. What another package, the network, the clock or the random source answers is an argument: an
-- encoder, a framer, a dial, the outcome of a write, a turn of the retry loop. msgp is a record of
-- functions with the law that its reader reads what it wrote. zap's marshalers are trees of the calls
-- that they make, each of which may depend on whether the call before it failed.
--
-- Fuel. A scan of `length b` rounds is enough, since each takes a byte. flushAll gets one round
-- more than there are logs, those that callers still send included. The retry loop gets as many
-- turns as there are nanoseconds to the deadline, and three: each wait takes at least one. The
-- theorems below say so. Reconnect attempts count down from maxRetries, as in the source.
--
-- Not modelled. Network and TLS I/O, the parsing of URLs, zap's JSON encoder and the glue to zap;
-- the time codec and the transcoding encoder of fluent/; the record's own fields in EncodeEntry of
-- otlp/, how it recognises trace contexts, and its JSON transcoder; the interleavings of the OTLP
-- Writer's goroutines, whose operations are modelled one at a time; the reuse of buffers, which
-- does not show in results.
pub mod Common
pub mod Config
pub mod Writer
pub mod Otlp
pub mod Syslog
pub mod Fluent
pub mod Ndjson
pub mod Examples
