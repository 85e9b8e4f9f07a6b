-- ===== src/Lib.antt =====
-- eTraceGen: an event telemetry engine, from the kernel's tracepoints to a file of JSON lines.
--
-- The engine attaches programs to kernel tracepoints. A program decides by its gates whether the
-- event counts, fills a record of the event contract, and submits it to a ring buffer. A system
-- call is recorded in two halves: its enter program stores what it saw in a map, by task and kind,
-- and its exit program finishes that record with the result and submits it. Network programs also
-- track which descriptors are sockets, since `read`, `write` and `close` come for every descriptor.
-- In user space a callback decodes each record, leaves out the collector's own, makes a canonical
-- event of the others, resolves the processes that it names to entities, and writes a line of JSON.
--
-- Files, and the code that they are about:
--   Schema, Schema/Kinds      include/event_schema.h: records and enumerations, and EventVariant of
--                             src/decoder/decoder.h
--   Kernel/State              bpf/event_logger_common.bpf.h: the maps, their keys, the counters
--   Kernel/Env                what the kernel gives an invocation: a parameter of every handler
--   Kernel/Gate               the is_..._enabled and is_..._allowed functions
--   Kernel/Reserve            fill_header and the reserve_..._event functions
--   Kernel/Process            bpf/event_logger_process.bpf.c
--   Kernel/File               bpf/event_logger_file.bpf.c, and the pairing of file records
--   Kernel/Syscall            bpf/event_logger_syscall.bpf.c, and the pairing of syscall records
--   Kernel/Network/Endpoint   parse_sockaddr_user, copy_unix_sockaddr_path, copy_optval_prefix
--   Kernel/Network/Iovec      sum_iovec_lengths, sum_mmsghdr_lengths, sum_mmsghdr_transfers
--   Kernel/Network/Flow       infer_network_transport, ..._direction, compute_network_flow_id
--   Kernel/Network/Pairing    socket descriptors, save_network_enter_state, emit_network_exit_event
--   Kernel/Network/Build, Enter, Exit   bpf/event_logger_network.bpf.c
--   Kernel/Call               bpf/event_logger.bpf.c: all programs as one step, and histories
--   Model/Canonical           src/model/canonical_event.h, in user space
--   Model/Normalizer          src/model/normalizer.cpp: records to canonical events
--   Util/Proc                 src/util/proc_util.cpp: symbolic links, files and stat lines of /proc
--   Registry/Entity, Table, Ingest   src/registry: process entities with a stable identity
--   Decoder/Layout, Structs, Decode  src/decoder: the bytes of a record to the record
--   Sink/Escape, Labels, Body, Line, File   src/sinks/json_sink.cpp: lines of JSON and their file
--   Pipeline/Callback         src/main.cpp, src/metrics, src/policy: the callback for each record
--   Config/Text, SinkSettings src/main.cpp: the parser of the sink settings
--   Config/Runtime, Load      src/collector/collector_libbpf.cpp: the parser of the runtime settings
--   Collector/Toggles, Startup, Counters   src/collector/collector_libbpf.cpp: the switches that the
--     start writes to the maps, its report on them, and the reading of a counter
-- A handler is a function from state to state; `run_all` runs a list of calls, in any interleaving
-- of tasks. The proofs stand in Kernel/Sound (the invariant and the effect of each call),
-- Kernel/Pairs (enter and exit together), Kernel/Shut with the table Kernel/Guard (gates), and
-- beside the network functions in IovecSum, EndpointForm, UnixPath, AbstractName, FlowHash,
-- SocketFds and Finish; Model/Outcome and Model/History are about canonical events. Base has the
-- shared helpers, Tests a concrete map, task and state.
--
-- How the code is read:
--   Numbers are unbounded naturals below their bounds; casts and sums wrap where the code's types
--   do. Structs are little-endian under the LP64 ABI; padding has no model.
--   The contents of a map are a function from keys to optional values. The helpers that update and
--   delete are the kernel's, so they are parameters, with the documented behaviour as laws
--   (IsBpfMap): an update that succeeds stores its value and may evict other entries, as an LRU map
--   does; one that fails changes nothing at its key; a delete removes its key only.
--   Env gives each invocation the current task, the clock (at the reservation and at the exit), the
--   reserved slot with its old contents or none when the buffer is full, and user memory as
--   functions of address and size. A race of user space with one invocation has no model: one
--   address reads the same twice in an invocation.
--   A handler is atomic. The maps are shared by all CPUs, and the code has no locks, but a key of
--   the state maps belongs to one task, which runs one program at a time.
--   The scratch slot of the network enter handlers is zeroed at each use, so it is local to the
--   handler; whether it is there is a field of Env.
--   The loops over vectors and paths recur on the bound that the code has in its loop header (8
--   entries, 107 bytes), so no further fuel is needed.
--   A write past the end of a buffer makes its list longer, so a length that is kept says that no
--   write went outside.
--   What an enter handler reserves it also discards, so a record of an enter is never submitted.
--
--   In user space text and memory are lists of bytes. What /proc answers (Proc), and the
--   clock, whether the sink's file can be removed and opened, and how far a write and a flush of it
--   go (FileSystem), are parameters of each call. A stream that has failed takes no more bytes and
--   flushes none, until it is opened again.
--   The registry's map by id is a list in the order of insertion, and its index by process number a
--   function. Its ids wrap at 64 bits, so what is said of histories bounds their length.
--   `std::to_string` has 20 digits as fuel, which hold every number of 64 bits (Base/Decimal).
--   `bpf_map_update_elem` on an array map is a parameter of the start too; one that returns 0 changes
--   the entry at its key and no other (IsUpdateElem). The startup report has the fields that the
--   switches and the suppressed process have a part in.
--   Sink/Json is an independent reading of the form of JSON, without the encoding of its strings,
--   and Decoder/Encode of the structs in memory.
--
-- The proofs in user space: Util/Stat (stat lines), Registry/Consistent to Registry/Lifecycle (the
-- invariant, the ways of a lookup, whole histories, exit and reuse), Decoder/RoundTrip and Accepted,
-- Sink/WellFormed, Lines and ReadBack (text), Sink/Stream, Rotation, Texts and FileHistory (the
-- file), Pipeline/Flow and EndToEnd, Config/Settings, Digits and Allowlist, and Collector/Switches,
-- Guards and Off (the gates after the start).
--
-- Not modelled: the loading and attaching of programs and the ring buffer reader of the collector
-- (libbpf), the writing of the allowlist maps, which no program reads, the other fields of the
-- startup report, the runtime report, the enricher, which the program does not use, signals, the
-- reports and the polling loop of main, and the verifier's own limits.
pub mod Base
pub mod Schema
pub mod Kernel
pub mod Model
pub mod Util
pub mod Registry
pub mod Sink
pub mod Decoder
pub mod Pipeline
pub mod Collector
pub mod Config
pub mod Tests
