-- ===== src/Lib.antt =====
-- A model of the runtime core of graphx: the envelope that nodes exchange, its wire format, and the
-- transports that carry it.
--
-- Parts, and the files that model them:
--   * src/envelope.cpp, include/graphx/envelope.hpp: Wire (the `put` and `Reader` primitives, with
--     Wire/Number), Identity (correlation identities), Attributes (the attribute map and its sorted
--     form) and Envelope (`serialized_size`, `serialize`, `deserialize`, and in Envelope/Make
--     `generate_identity`, `make` and `derive`, in Envelope/Lineage chains of derivations).
--   * src/framing.cpp, include/graphx/framing.hpp: Wire/Framing (`frame`, `decode_frame_size`).
--   * src/in_process_transport.cpp, include/graphx/in_process_transport.hpp: Channel (the bounded
--     queue `InProcessChannel`), Channel/System (interleavings of its callers), Channel/Transport
--     (`InProcessTransport` on top of it).
--   * src/shared_memory_transport.cpp: SharedMemory (the ring in the mapping and the calls on it),
--     SharedMemory/Layout (names and the sizes of the mapping), SharedMemory/History (sequences of
--     calls by both ends).
--   * src/capture.cpp: Capture (numbers, options, blocks and comments), Capture/Literals (the fixed
--     texts of a comment), Capture/Writer (`WriterState` and the two sinks), Capture/Session (the
--     packets of one capture).
--   * src/observability.cpp, include/graphx/observability.hpp: Observability (the interface
--     `TraceSink`), Observability/Metrics (`MetricsTraceSink`), Observability/Composite
--     (`CompositeTraceSink`), Observability/Commands (`signed_datagram`, `authenticate_command` and
--     the fields of a command), Observability/Export (`UdpJsonTraceSink`: its datagrams and its
--     control loop, with Observability/Export/Command for what a command has to be),
--     Observability/Spans (`OtlpHttpTraceSink`: spans and their queue) with
--     Observability/Spans/Post (`post_json`); Observability/Text has what they use of the standard
--     library's strings.
--   * src/vita/virtual_device.cpp, include/graphx/vita/virtual_device.hpp: Vita/Device
--     (`VirtualDevice`), Vita/Device/Stream (`readStream`), Vita/Device/Reach (calls in any order).
--   * src/vita/processing.cpp, include/graphx/vita/processing.hpp: Vita/Spectrum (`Spectrum` and
--     `validate`), Vita/Spectrum/Codec (`encode_spectrum`, `decode_spectrum`). The sample timeline
--     of the VITA runtime library is a record of functions, of which nothing is assumed; a `float`
--     is its bits.
--   * src/network.cpp, include/graphx/network.hpp: Network (the definitions and the lookups by id),
--     Network/Names (`to_string`, `profile_semantics`).
--   Base holds what all of them share: Boolean tests on the native numbers, lists, results of code
--   that throws, and sorting. Examples holds the tests.
--
-- How the code is read. A byte string is a list of byte values. A function that throws gives a
-- `Result`, with one error constructor for each message. A w-bit integer is a number, and an
-- operation that can wrap around takes the remainder by 2 ^ w; `timestamp_ns` is its two's
-- complement pattern. Other signed 64-bit values are integers, brought back to 64 bits where the
-- code casts or adds (`signed64`, `int64`); an overflow of signed arithmetic, which C++ leaves
-- undefined, is read as wrap-around there and in the latency of an envelope. A writer that appends
-- to a buffer gives the bytes that it appends, and a `Reader` is the bytes that it has not read.
-- The unordered map of attributes is the list of its entries in some order, with different keys. A
-- call that waits on a condition variable is split where it waits: each part is one step under the
-- mutex, which ends with a result or in `blocked`, and clock readings, wake-ups, lock and wait
-- statuses and the liveness of a process are arguments of the step. Loops are structural
-- recursion; `pad32` alone has a bound, three rounds, which reach the next multiple of four from
-- everywhere.
-- A trace sink is a record of functions on a state: a call gives the next state. HMAC-SHA256 is a
-- function from a secret and a value, of which only the length of the digest is assumed. The
-- arithmetic of `double` is a record of operations, of which nothing is assumed. A loop around
-- calls of the system (`post_json`, `generate_span_id`) is recursion on the list of what these
-- calls give; a call of `send` is a function from the bytes that it is passed.
--
-- Not modelled: the process's random seed, the kernel objects behind the shared mapping and the
-- files, the trace sink of the shared-memory transport, sinks that throw, sockets and addresses, the
-- other transports, the range lists of the virtual device, the transform, detector and sample
-- assembler of processing.cpp, the rest of src/vita, and the control plane.
pub mod Base
pub mod Wire
pub mod Identity
pub mod Attributes
pub mod Envelope
pub mod Channel
pub mod SharedMemory
pub mod Examples
pub mod Capture
pub mod Network
pub mod Observability
pub mod Vita
