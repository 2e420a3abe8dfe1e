-- ===== src/Lib.antt =====
-- A model of NetMath, a C server that is to solve files of equations sent by clients, with
-- theorems about its parts. Paths are from the root of the repository.
--
-- The parts, and how they interact. `main` (src/server/server.c) parses the command line and
-- starts the server. For each connection a thread runs `serve_client`, which reads a header with
-- `read_header` and answers a bad one with `error_reply`. `parse_stream` reads an equation file,
-- and `get_equation_struct` evaluates one equation of it; the server does not call these two yet.
--
-- Base: Boolean tests, integers with the division of C, machine words, lists of bytes. Bits: laws
--   of the bit operations at every width, from their lowest digit; Bits.Place is about shifts.
-- Calc: src/calculation/calculation.c. A callback has the name that it has in C and takes the
--   structure to its new value. `none` is undefined behaviour: signed overflow, a division that
--   traps, a shift by 64 or more. `Libc` holds the answers of `malloc`, `strdup` and `snprintf`.
--   Calc.Report is the independent description of the arithmetic callbacks, by exact integers.
--   Calc.Operation says which operation an operator byte stands for.
-- Io: what the C code sees of the system. A function that reads, writes or allocates is a
--   function of a `World`, which counts the allocated blocks and the open sockets. An `Outcome` is
--   a value, the NULL or -1 of a failed call, or a run that does not go on: undefined behaviour, or
--   the SIGPIPE of a `write` to a peer that hung up, which no code handles. A `write` may be short. `alloc` joins `calloc` or
--   `malloc` with the test of `verify_alloc` (src/utils/utils.c).
-- Swap, Stream, Header, Equ: src/header_parser/header_parser.c. `read_stream` is given the number
--   of blocks that its `free_func` would free. The bytes that it copies into a field become a
--   number by `le_value`, as on a little-endian host; `ntohl` and `htonl` are the parameter
--   `Host`, with the hypothesis `IsLittleEndian`. The list of equations is the list of its nodes.
--   Header.Parsed and Equ.Parsed say where the fields stand in any bytes; Equ.Bytes, Equ.Cut and
--   Equ.Typed are about files that need not be in the format. Equ.Format also says where a file
--   has its equations by its offset, which `parse_stream` does not look at.
-- Session: `serve_client` and `error_reply` of src/server/server_backend.c; `serialize_header` is
--   in Header. Session.Bytes is about any bytes that a client sends. Session.Scarce, Header.Scarce,
--   Stream.Scarce and Equ.Scarce are about any answers of the allocator.
-- Listen: `server_listen`, `start_server` and `signal_handler` of the same file. What the system
--   calls answer is in `AddrRecord`, `Round` and `Answers`; SIGINT is seen at the test of the loop.
--   Listen.Stop is about servers that are stopped, Kept and Ends about any answers.
-- Args: src/server/arg_parser.c. `getopt` is the list of what it returns, `strtol` a parameter.
-- Pool: the work queue of src/thread_pool/thread_pool.c. A pointer is an address, 0 is NULL, the
--   memory is a function from addresses to job blocks, and `malloc` is a parameter. Pool.Chain is
--   about the linked list, Pool.Fifo about each operation, Pool.Trace about sequences of them.
-- Pool.Workers: the threads of the same file. A worker is at a `Place`, and `turn` makes its next
--   access to shared state; `Step` lets any worker go next, or a client submit or stop. The queue
--   is a list there, as its operations hold a mutex. A task, such as `serve_client` for one
--   connection, is one step of its worker.
-- Pool.Linked: the same threads on the linked list, with a pointer in each worker that holds a job.
--   Pool.Linked.Turns is about one access, Added about a new job, Refines about all states, Owned
--   about the blocks of the jobs.
-- Pool.Waiting: a thread in `thpool_wait` beside the workers, with its two loads as two accesses.
-- Pool.Lifetime: the thread of `start_server` beside the workers, from the loop that ends
--   `thpool_init` to the frees of `thpool_destroy`; it submits any tasks in between.
--   Pool.Lifetime.Laws is about all states, Ends about the way to the frees.
-- Pool.Signals: the same with exact wake-ups. `due` are the calls of `cnd_signal` on `run_cond`
--   that are still to be made; without it a thread may come back from `cnd_wait` at any time.
--   Pool.Signals.Refines compares the two, Stuck is about the states in which all threads wait.
-- Pool.Setup: `thpool_init`, `thpool_wait` and `thpool_destroy` of the same file. They count what
--   exists in `Resources` and are functions of `PoolAnswers`, which holds what the system answers
--   and what the loops that wait for the workers load. Pool.Setup.Parts is about those loops,
--   Start, Worker, Stop and Cycle about the ways in which a pool is made and given back, and
--   Outcome about all of those in which it is made.
-- Service: the accept loop, the workers and the sessions that these run, as one system: a step of
--   the thread of `start_server` or of a worker, and what it does to the sockets and the blocks of
--   the connections. A session runs on the bytes that its peer is to send.
-- Main: `main` of src/server/server.c. It joins Args, Listen and Pool.Setup.
--
-- Loops. The accept loop recurs on its rounds, and the loops that wait for other threads on the
-- values they load; `waits` is a loop that still runs. The loop of `read_stream` recurs on the
-- bytes left and that of `parse_stream` on the equations left, so neither needs fuel. The `int`
-- counter of `parse_stream` is undefined past INT_MAX. The loop of `thpool_destroy` over the jobs
-- has fuel for one round more than there are jobs.
--
-- Not modelled: messages that are only printed, apart from the read past a name that `serve_client`
-- prints, the client script, build files and tests. The
-- headers under docs/3_DataStructures1 declare functions that the repository does not define.
pub mod Args
pub mod Base
pub mod Bits
pub mod Calc
pub mod Equ
pub mod Header
pub mod Io
pub mod Listen
pub mod Main
pub mod Pool
pub mod Service
pub mod Session
pub mod Stream
pub mod Swap
