-- ===== src/Lib.antt =====
-- dousi, a C++ library for remote procedure calls: a server (RpcServer, over Executor) on which
-- services register methods, and a client (RpcClient, over Submitter) that calls them by name through
-- service handles and gets the results through futures. Both sides speak in frames over a TCP stream
-- (AsioStream), with msgpack for what the frames carry.
--
-- How the parts interact: a service handle packs the names of the service and of the method with the
-- arguments, takes an object id from the submitter and gives the bytes to the stream's Write. The
-- server's stream hands each frame to Executor::InvokeMethod, which queues a request; a work thread
-- performs it on the object of the service and queues a response; a write thread writes the response
-- to the stream that the request came from. The client's stream hands the answer to the submitter,
-- which caches it under its object id (or calls back into Java), and the future polls the cache.
--
-- The files and what they model:
--   Prelude    shared names, Boolean tests, lists over the native numbers, association lists
--   Stream     src/dousi/core/stream: the chain of reads as a state, one handler per read; Write as the
--              bytes for the wire; Stream/Word is the memory layout of a uint32_t in both byte orders,
--              Stream/Loop the loop of handlers over a wire, Stream/Writes the writes that are in flight on
--              one socket, piece by piece
--   Endpoint   src/dousi/common/endpoint.h, endpoint.cc, with find, substr, stoi and to_string of the C++
--              library in Endpoint/Text
--   Msgpack    the contract of msgpack, and src/dousi/common/msgpack_utils.h; Msgpack/Plain meets the contract
--   Traits     src/dousi/core/common/function_traits.h, tuple_traits.h, remote_annotation.h
--   Queue      src/dousi/core/common: the queue interface, the locked queue and the lock free queue, both
--              against a list in Queue/Fifo; Queue/StdLocked/Wakeups is the condition variable with many
--              threads
--   Submitter  src/dousi/core/submitter: the client; Submitter/Future and Submitter/Handle are
--              dousi_future.h and service_handle.h
--   Executor   src/dousi/core/executor: the server; Executor/IoPool is io_thread_pool.h, Executor/Request
--              is dousi_request.h, Executor/Listening where Init listens, Executor/Monitor what the monitor
--              thread prints. Executor/Threads is the threads as a step relation, with
--              Executor/Threads/Serial one thread in place of them, Executor/Threads/RealTime the order of
--              its requests against time, and Executor/Threads/Emitted what they put on the wire of each
--              connection
--   Logging    src/dousi/common/logging.h, logging.cc
--   Rpc        src/dousi/rpc: construction of client and server; Rpc/ServerTurn takes one message through
--              the server, Rpc/Exchange a whole call through both sides, Rpc/Session one call after another,
--              Rpc/Concurrent a call among many at once
--   Jni        src/dousi/jni: native_java_client.h; Jni/Arrays is the conversions of arrays, Jni/References
--              the native methods and the global references that they share
--   Examples   src/examples: the services, the server and the client, put together
--   Testing    src/tests/test_utils: the services and the server of the tests, whose dangling methods are
--              in Testing/Dangling
--   Benchmark  src/benchmarks/single_node: the counter of calls and the thread that prints its growth
--              (Benchmark/Qps), the service and the server
--
-- State is passed explicitly: each operation takes the record of its component and returns it changed.
-- An exception or an undefined access is `none`, or a `fault` at the executor, where it ends the
-- process. Machine integers are native numbers with their wrap-around written out. A C++ object that
-- is reached through a pointer is an index into a list of the executor (`objects`, `services`).
--
-- Bounds and fuel: `serve` runs at most the given number of read handlers; three take in one frame, and
-- `rounds` counts them with those that find the end of the wire. `wait_and_pop` runs for a number of
-- rounds, and `get_bytes` for a list of sleeps. A theorem that such a loop ends gives enough of them.
-- Decimal text is printed with the number's successor as fuel.
--
-- Parameters, with what is relied on: boost::asio::async_read (Stream/Transport), msgpack (Msgpack/Defs),
-- boost::lockfree::queue (Queue/LockFree), spdlog (Logging), JNIEnv and the Java VM (Jni/Arrays,
-- Jni/References), and whether an address can be connected to or a port be bound. Each has a concrete
-- instance that the examples run on. Only Stream/Writes looks at a frame that is not yet on the wire as
-- a whole; elsewhere a call of Write puts all of its bytes there at once.
--
-- Not modelled: the inside of a critical section (it is one step); two methods that run on one service
-- object at the same time, which nothing in Executor prevents (a method is one step); what a C++ program
-- does after an access that is undefined; src/thirdparty/nameof, whose names are arguments; the clients
-- of the benchmarks, the tests themselves and build files.
pub mod Prelude
pub mod Stream
pub mod Endpoint
pub mod Msgpack
pub mod Traits
pub mod Queue
pub mod Submitter
pub mod Executor
pub mod Logging
pub mod Rpc
pub mod Jni
pub mod Examples
pub mod Testing
pub mod Benchmark
