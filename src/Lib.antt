-- ===== src/Lib.antt =====
-- Verification of KudosJudge, an online judge server in C: a daemon that receives submissions
-- over TCP, compiles them, runs them in a sandbox, compares their output with the expected one
-- and answers with a verdict.
--
-- The parts, and how they work together. The listening thread (kudosd.c) pushes each connection
-- on a queue (queue.c). Worker threads pop connections; a worker receives a request and decodes
-- it (interface.c), writes the input and the expected output to files (feed.c), compiles the
-- source code (lang.c), has it run (runner.c, which asks a template process for a watcher,
-- sandbox.c) while the output is compared piece by piece (compare.c), and sends the verdict
-- (interface.c). client.c is a client of that protocol.
--
-- Files:
--
--  * Base: the names that all parts share, with children for tests, lists, integers and
--   results.
--  * Decimal: `%d` of sprintf and `atoi` of the C library. RoundTrip has their laws.
--  * Judge: one request on one machine, the worker over the models of feed.c, lang.c and
--   runner.c. Accepted is what the verdict ACCEPTED says of the request, on the lemmas of Ran,
--   Watched what it says of the watcher, Exchange joins client.c to both ends, its child
--   Refused where the source code does not compile, Apart is about the files of two workers,
--   Refused about the verdict on a source code that does not compile, and Leftover about a
--   file that cannot be written.
--  * Verdict: `jug_verdict_enum` of def.h and `jug_int_verdict_to_string` of interface.c.
--  * Interface: interface.c. Request and Decode are `jug_int_decode`, Receive is
--   `jug_int_receive`, Send is `jug_int_send_verdict`, BufferLib is what interface.c uses of
--   the string library buffer/, and its child Sparing a library of that kind to run the models
--   with. Protocol joins client.c with the server's side.
--  * Client: `kudosdjudge_forge_dd` of client.c. Main is its `main` with `kudosjudge_send`,
--   and Exits what comes of a call. Receive is `kudosjudge_receive`, and Answer what it makes
--   of the daemon's answer.
--  * Worker: `queue_worker_serv` of queue.c, over an interface for the components that it
--   calls. Verdicts is about what is sent, Session about the order of the actions.
--  * Runner: runner.c. The file itself is `jug_runner_judge`, Judged its verdicts. Run is the
--   loop of `jug_runner_run`; its children Trace, Ends and Accepted follow one round, the
--   rounds behind the end of the comparison, and the whole loop, Unset a failed `waitpid`,
--   Watched where the result of the watcher comes from, and Alive, Outcomes, Known and
--   Finishes that the loop ends with a result. Drain is the emptying of the pipes behind the
--   loop, Patience how it ends. Serial is the request to the template process, with its round
--   trip; Launch is the head of `jug_runner_run`, which makes that request, and Handed what
--   the template process reads of it. Template is the shared memory between a thread and the
--   template process, as the steps of both sides; Handshake has its invariant, Progress how a
--   request comes to its answer. Result is `jug_sandbox_result` of sandbox.h.
--  * Sandbox: the loop of the watcher of sandbox.c, its signal handler and its exit. Lasting
--   follows what it has seen from turn to turn, Verdicts what it exits with. Reference is the
--   exit said of a whole life at once, with the flags of a stop in Flags, one turn in Turns
--   and the equivalence in Agrees. Life is the whole watcher with its set-up and the emptying
--   of the pipe behind the loop, Exits the exits that are errors, and Status what its exit
--   status says. Binary is the process of the submission up to its execution, and how its
--   memory is read.
--  * Lang: lang.c. The file itself is `lang_init` and `lang_get`, Entries the entries of the
--   configuration file; Process is `lang_process`; Outcomes follows the compiling layer, Codes
--   the return codes.
--  * Feed: `jug_feed_new_file` of feed.c.
--  * Queue: `queue_push_connection` and `queue_pop_connection` of queue.c on an explicit heap.
--   Workers is `queue_worker_id`. Refinement relates the queue to a list, Schedule interleaves
--   the listening thread and the workers.
--  * Config: config.c over the library iniparser/. Once is about what lookups answer.
--  * Ramfs: ramfs.c. Copy is `ramfs_cp`, Space its accounting, Workspace the directories of
--   lang.c and feed.c in it.
--  * Start: `queue_start`, `jug_runner_start` and `jug_sandbox_init`, over the lookups. Ready
--   relates the workers that run to the pipes that were made.
--  * Daemon: kudosd.c. The file itself is the decisions of `main` on an action, Wait how the
--   starting process waits for the daemon, Accept the loop that takes connections, Process
--   `kjd_daemonize` and `kjd_sighandler`. Actions is about the decisions, on what Seen says of
--   the pid file, PidFile about the pid that is written and read. Startup is the way to the
--   daemon's loop, and Listening what is there then.
--  * Log: the tags in focus of log.c, with Rows about their array, and Tags about which
--   messages are printed.
--  * Compare: `__compare_output` and `compare_output` of compare.c. Spec says what they are to
--   decide, Blocks is about one piece, Output about a whole output, and Texts about the
--   quotient of the texts that count as the same.
--
-- State and effects. A C string is the list of its bytes without the terminator; a read past the
-- terminator or through a bad pointer is a fault, a value of its own. Descriptors, queues and
-- the variables of a loop are records that an operation takes and gives back. What a system call
-- returns is an argument: a list of events for `recv` and `send`, a file's content and access
-- mode for `read` and `lseek`. Memory is always granted. An `int` that a text does not fit is
-- not defined by C for `atoi`, and is kept as the number written.
--
-- Fuel. The loops of compare.c run on fuel, `Compare.rounds` for a piece and one more than the
-- file's length for the end. Blocks is about whether it is enough. The loop of `jug_runner_run`
-- recurs on what the system answers round by round, and goes on where the answers end. All other
-- loops recur on a list or count down a number.
--
-- Not modelled: the third-party libraries buffer/, iniparser/ and proc_maps_parser/ (of buffer/
-- what interface.c uses is an interface with its documented laws, iniparser/ is a parameter of
-- Config), the printing of log.c, the experiments in lab/, the unused compiler.c and
-- sandbox.old.c, the tests and the limit of the submission's address space, a floating-point
-- product. Files, sockets, processes and mounts are the answers of the system calls, in the
-- order in which they are made.
pub mod Base
pub mod Config
pub mod Ramfs
pub mod Start
pub mod Daemon
pub mod Log
pub mod Decimal
pub mod Verdict
pub mod Interface
pub mod Client
pub mod Worker
pub mod Compare
pub mod Queue
pub mod Runner
pub mod Sandbox
pub mod Lang
pub mod Feed
pub mod Judge
