-- ===== src/Lib.antt =====
-- TOSDataBridge: the engine with its streams, the messages between it and the client library, the
-- streams and blocks of the client library, the calls that read them, and the maps and values
-- that they stand on.
--
-- The client library keeps, for every item and topic, a stream: a bounded deque of the values
-- that came in, newest first, with a marker before the oldest value that the last read has not
-- seen. A block is a matrix of such streams. For each topic and item that is asked for, the
-- engine keeps a count, a conversation with TOS and a buffer in shared memory; the client asks
-- for them in text messages over a named pipe. The service writes into shared memory, and the
-- client's buffer threads push from there into the streams while its interface reads from them.
--
-- Which file models which part:
--
--   Prelude: shared names; Prelude/Tests (comparisons), Prelude/Lists (lists over the native
--     numbers), Prelude/Int (int and size_t: conversions with their wrap-around written out),
--     Prelude/Action (methods that change a state and return or throw), Prelude/Dict (association
--     lists and sets), Prelude/Table (entries that are put in or replaced), Prelude/Order (the
--     order of texts, and maps in the order of their keys), Prelude/Text (numbers as text, as
--     std::to_string writes and std::stoul and std::stol read them).
--   Stream/State: src/data_stream.tpp, the state of a DataStream, its constructors, _push,
--     _incr_internal_counts, bound_size (`set_bound_size`), _check_adj. Stream/Read: copy,
--     operator[] (`get`), both, vector and the others. Stream/Marker: copy_from_marker,
--     ncopy_from_marker (written over the virtual copy that they call). Stream/Secondary: the
--     specialisation with a secondary deque.
--   Stream/Invariant, Index, Window, Unread, Delivery, Reads, Reachable, Paired, Stamped: the
--     theorems on streams; Stream/Tests: runs on small inputs.
--   Elements: the streams behind DataStreamInterface. Elements/Push: include/data_stream.hpp, the
--     push overloads; Elements/Any: the streams that src/raw_data_block.tpp makes, of five
--     element types; Elements/Copies, Reads: the overloads of copy, copy_from_marker and
--     ncopy_from_marker with their conversions, and all reads of a stream of any type;
--     Elements/Moving, Kept, Same, ReadLaws: the laws of Getters/Interface for the streams;
--     Elements/Overloads, Laws, Pushes: what a push comes to, and the laws of Block/Interface for
--     the streams.
--   Block/State: src/raw_data_block.tpp, the state of a RawDataBlock and the calls that change
--     it; Block/Frame: its frames and reads; Block/Limit: CreateBlock and the static counts.
--     Block/Interface: the interface of a block to its streams. Block/Rows, Invariant, Removal,
--     Insert, Lookup, Frames, Matrix, Reachable, Limits: the theorems.
--   Shared/State: the ring buffers in shared memory, written by RouteToBuffer of
--     src/service/engine.cpp and read by _extractFromBuffer of src/client/client_admin.cpp;
--     Shared/Ring, History, Writes, Delivery, Created: the theorems.
--   Signals: SignalManager of src/concurrency.cpp, as it is built for Windows; Signals/Laws its
--     theorem, Signals/Tests runs.
--   Engine/State: src/service/engine.cpp, the globals of the engine and what its message thread
--     does with acknowledgements and data; Engine/Streams: AddStream, RemoveStream and all that
--     they call; Engine/Handling: HandleGoodIPCMessage, and both threads as a sequence of events.
--     Engine/Counts, Adding, Removing, Tracking, Invariant, Holding, Clearing, Balance,
--     Reachable: the theorems; Engine/Tests: the theorems at concrete inputs.
--   Ipc/Args: ParseArgs of src/main.cpp; Ipc/Message: the messages as src/client/client_admin.cpp
--     writes them (_requestStreamOP), src/ipc.cpp carries them, and src/service/engine.cpp reads
--     them (ParseIPCMessage, RunMainCommLoop); Ipc/RoundTrip, Exchange: the theorems; Ipc/Tests
--     runs.
--   Client/Valid: src/main.cpp, the tests of items, names and sizes. Client/State:
--     src/client/client_admin.cpp, the blocks and buffers of a client, _captureBuffer and
--     _releaseBuffer; Client/Add: TOSDB_CreateBlock and TOSDB_Add; Client/Remove:
--     TOSDB_RemoveTopic, TOSDB_RemoveItem, TOSDB_CloseBlock; Client/Calls: the other calls.
--     Client/Extract: the thread that reads the buffers, _extractFromBuffer with the insertion
--     into the blocks, and a round of _threadedExtractLoop. Client/Query:
--     src/client/client_get.cpp, the calls that ask for the state of a block. Client/Feeding,
--     Fed, Rounds, Holders, Adding, Safety, Closing, Releasing, Granting, Complete, Reachable,
--     ValidAdds, ValidCalls, ValidSteps: the theorems; Client/Tests, FedTests runs.
--   Getters: src/client/client_get.cpp, the calls that read streams. Getters/Interface: the
--     interface of the client to its streams; Getters/State: GetBlockOrThrow, raw_stream_ptr and
--     a read of the stream, with the catch clauses, and the calls for names, counts and the
--     marker; Getters/Values: TOSDB_Get; Getters/Snapshots: TOSDB_GetStreamSnapshot;
--     Getters/Marked: the reads from the marker; Getters/Frames: the frames of items, topics and
--     blocks; Getters/Typed: the calls for each type of number. Getters/Single, Untouched, Steps,
--     Sequence, Exact, Written: the theorems; Getters/Tests runs.
--   Generic/State: include/generic.hpp and src/generic.cpp, TOSDB_Generic; Generic/Laws its
--     theorems, Generic/Tests runs.
--   Topics/Enum: include/tos_databridge.h, the enumeration TOPICS and its types; Topics/Text and
--     Topics/Map: src/topics.cpp, the map of the texts; Topics/Values and Topics/Types: the
--     theorems.
--   TwoWayMap: include/containers.hpp, TwoWayHashMap; TwoWayMap/Laws its theorems,
--     TwoWayMap/Tests runs.
--
-- A method is a function from the state to a result or an exception, and a state. Its mutex makes
-- the calls of one object a sequence, so an interleaving of threads is a list of calls; what
-- try_lock answers in _push is an argument. A read writes into an array of the caller, which the
-- model returns as the list of what is written. `blank` is the value-initialised element.
--
-- size_t has 64 bits, int, unsigned int and long 32. A cast between them is written out
-- (`to_int`, `to_size`); sums in int and in long long are exact, since the invariant keeps the
-- values they start from between -1 and INT_MAX. The loops are recursion on lists. The chain of
-- push overloads is followed for `max_calls` = 8 calls, which are enough for every value and
-- every type; a number of rounds of reads is an argument of the theorem that says how many are
-- enough.
--
-- What TOS and the system answer to an operation of the engine is an argument: the
-- acknowledgements that come during each of its waits, and whether a buffer is made and given
-- back. A wait is one step of the message thread before it is woken, and one from there to its
-- end. The pipe is a function from a message to a reply. ParseArgs is recursion on fuel, one more
-- than the characters of the message, of which there are at most 511; an item has at most 255.
-- The counts of the engine are a size_t and wrap around, which fewer than 2^64 events cannot
-- reach.
--
-- A call of the client's interface takes what the engine answers to its requests, and whether a
-- buffer can be opened, as functions of what lies outside. Sets are ordered in the source and
-- stand in the order of insertion here, which is that of the requests. A loop over a map whose
-- keys are texts goes through them in their order.
--
-- The maps of a block own their rows and streams, so its null checks have no case; the texts of
-- exceptions are left out. Topics are ordered by their texts in the source and compared by their
-- values here; no two topics have one text.
--
-- The casts between the numbers of the language, and std::stol, std::stoll, std::stod and
-- std::stof, are arguments of the generic values; a call of the client takes the copies of a
-- stream as numbers of a type, and the cast of a generic value, as arguments. The frames read
-- their streams without moving the marker; the other reads move it, as the source's do.
--
-- Not modelled: the move constructors of streams, the destructors, what strncpy_s does with a
-- size of 0, the parsing of the values and the DDE messages of the engine, the system calls
-- behind pipes, shared memory and mutexes, SignalManager::wait, the client's DllMain, the start
-- and the pace of its thread, and its connection, the service, the shell and logging.
pub mod Block
pub mod Client
pub mod Elements
pub mod Engine
pub mod Generic
pub mod Getters
pub mod Ipc
pub mod Prelude
pub mod Shared
pub mod Signals
pub mod Stream
pub mod Topics
pub mod TwoWayMap
