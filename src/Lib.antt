-- ===== src/Lib.antt =====
-- RustKernelEngine: an HTTP server with an event loop over epoll.
--
-- The program. `main` reads a configuration from the command line, checks the limits of the system,
-- and starts a `Reactor`, which makes the listening socket and the worker threads. Its event loop
-- waits for epoll events, accepts connections on the listening socket, reads a request from a
-- connection, parses it, answers it from a memory-mapped file or from a small API, and writes the
-- response. Next to it stand queues of tasks that workers steal from each other, and transfers from
-- file to socket, backends for io_uring and DPDK that only the detection of `main` looks at, and a
-- client that measures the server.
--
-- The files, each with the source that it is about:
--   Http/UrlDecode   src/http/parser.rs, the nested module `urlencoding`
--   Http/Parser      src/http/parser.rs, `HttpRequest`
--   Http/Response    src/http/response.rs, `HttpResponse`
--   Net/Epoll        src/net/epoll.rs, `EpollBackend`
--   Net/IoUring      src/net/io_uring.rs, `IoUringBackend`
--   Net/Dpdk         src/net/dpdk_adapter.rs
--   File/Sendfile    src/file/sendfile.rs
--   File/Mmap        src/file/mmap.rs, `MmapFile`
--   Config           src/main.rs, `ServerConfig`, `parse_args`, `detect_backend`
--   Arguments        the loop over the arguments that src/main.rs and bench/run_bench.rs share
--   Server           src/main.rs, `main`
--   Bench            bench/run_bench.rs
--   Worker/LockFree  src/worker/queue.rs, `LockFreeQueue`
--   Worker/Queue     src/worker/queue.rs, `WorkStealingQueue`
--   Worker/Reactor   src/worker/reactor.rs, the event loop and the handlers
--   Worker/Listener  src/worker/reactor.rs, `create_listen_socket`
--   Worker/Thread    src/worker/reactor.rs, `worker_thread`
--   Worker/Metrics   src/worker/reactor.rs, `Metrics::new` and `Reactor::new`
--   Worker/Start     src/worker/reactor.rs, `Reactor::start`
--   Sys/Affinity     src/sys/cpu_affinity.rs
--   Sys/Tuning       src/sys/tuning.rs, the checks, the recommendations and `apply_tuning`
-- A definition has the name of the function it models; part of a function that stands in a definition
-- of its own is named for what it does. The modules below each of these hold proofs. Base has shared
-- names and lemmas, Std models what the source uses of Rust's standard library, State is the monad of
-- stateful code, and Examples has tests and the theorems at concrete inputs.
--
-- State and errors. Text is the list of its characters' numbers. A result is `ok`, `err` or `panic`.
-- A method that changes its object or makes system calls maps a state to a result and a state; the
-- state after an error is kept, since destructors run on it. A panic aborts the release build (`panic =
-- "abort"` of Cargo.toml), so none runs after a panic. A system call is answered by a `Kernel`,
-- which may look at every call before it, and a trace records calls and answers. So a theorem about
-- every kernel speaks of every behaviour of the system and of the clients.
--
-- Concurrency. A call on one `ArrayQueue` is one atomic step. Worker/Queue models `pop` as a function
-- that makes its calls in a row; Worker/Queue/Interleaving is a step relation in which the single calls
-- of all workers mix in any order, a worker's program counter being the queues that it has still to
-- try. In `start` and in the benchmark the threads are listed, or run one after the other.
--
-- Parameters. What stands outside the repository is an argument: the kernel, `httparse`, Unicode
-- lower-casing, the parser of IPv4 addresses, the orders in which maps are iterated, `serde_json`,
-- the registry and the text format of `prometheus`, the crate `io_uring`, the features of the build,
-- the number of processors, the peers, the clock and the file of the benchmark, its text format of a
-- latency, and the `ArrayQueue` of crossbeam (Worker/ArrayQueue, an interface of operations with the
-- laws of a bounded queue). What a theorem needs of them is a hypothesis.
--
-- Loops. `send_entire_file` gets one round more than the file has bytes, and each round sends at
-- least one; the two `parse_args` get one round more than there are arguments, and each round moves
-- on. They never run out. The loop over `accept` ends when `accept` fails, so it has a bound as an
-- argument, and passing it is a panic; a bound above the number of connections that `accept` still
-- hands out is enough (Worker/Reactor/Accepting). The outer loops of `event_loop` and of
-- `worker_thread` run for as long as a list says that `running` is set.
--
-- What is shown of whole runs goes by a view of the trace, a function of the calls made so far: what
-- is watched (Net/Epoll/Interest), what is open (Os/Descriptors), what is written and with which bytes
-- (Worker/Reactor/Writes), how much (Worker/Reactor/Tallies), who was read from (Worker/Reactor/Rounds).
-- Os/Quiet names the calls that a view does not see, the modules called Calls say which code makes
-- only such calls, Worker/Reactor/Keeping carries what each step keeps through the event loop, and
-- Server/Ends goes through the ways in which `main` ends.
--
-- Integers. Casts between `i32`, `u64` and `usize` are written out with their wrap-around, `usize`
-- has 64 bits, and counters wrap.
--
-- Not modelled: log messages and printed texts that are fixed, among them the help of both programs
-- and the instructions of src/net/dpdk_adapter.rs; the rates that the benchmark prints, which are
-- floating-point numbers; and the trait of src/net/mod.rs, which nothing implements. A check or a
-- report of src/sys that logs what it finds returns it instead.
pub mod Base
pub mod Std
pub mod State
pub mod Os
pub mod Http
pub mod Net
pub mod File
pub mod Config
pub mod Worker
pub mod Arguments
pub mod Bench
pub mod Server
pub mod Sys
pub mod Examples
