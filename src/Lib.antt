-- ===== src/Lib.antt =====
-- CAPE is a malware sandbox. Submitted files become tasks in a database; a scheduler thread for each
-- task acquires a virtual machine from the pool, runs the analysis on it with the help of a guest
-- agent, and gives the machine back; reports name the API calls that the analysis logged. This
-- library models the parts of the Python code that decide who gets which machine and task, the
-- server that the guests send their files to, the manager that talks to a guest, what is made of
-- the logged calls, and some of the decoders of files and reports.
--
-- Database.Machines   lib/cuckoo/core/database.py: the table `machines`. One function for each
--                     method; a table is the list of its rows in the order of the database.
--                     Setup adds, deletes and views machines; Selection, Exclusion and
--                     Availability hold the proofs.
-- Database.Tasks      lib/cuckoo/core/database.py: the table `tasks` and the methods that change a
--                     status, fetch, ban, count and delete. Add: add, add_path and add_pcap, with the
--                     tags of Tagging. Order, Queue, History, Added, Blocked and Transitions hold
--                     the proofs.
-- Database.Guests     lib/cuckoo/core/database.py: the table `guests`; proofs in Lifecycle.
-- Database.Sql        the outcomes of the database calls that the three share.
-- Machinery           lib/cuckoo/common/abstracts.py: the class `Machinery`, on top of
--                     Database.Machines; proofs in Acquire and Timeout.
-- Scheduler.Exec      exceptions, try, except and finally of Python, with a state that keeps what
--                     was done before an exception.
-- Scheduler.World     the state that one thread of lib/cuckoo/core/scheduler.py changes (the machine
--                     lock, the tables, the ResultServer's map, the analysis folder, its local
--                     variables) and the answers of all code around it.
-- Scheduler.Launch    `AnalysisManager.launch_analysis` and the methods that it calls, on top of
--                     Machinery and Database.Guests; proofs in Acquire, Balance and Finish.
-- Scheduler.Routing   `route_network` and `unroute_network`, as the commands that they send to the
--                     rooter; proofs in Undo. Launch takes their outcomes from its environment.
-- Scheduler.Run       `AnalysisManager.run`: launch_analysis again after each dead machine, where each
--                     attempt brings its own environment; proofs in Settled.
-- Scheduler.Service   `Scheduler.start`, on top of Database.Machines, Database.Tasks and Machinery; the
--                     rounds bring what other threads have changed meanwhile. Proofs in Once.
-- Quarantine          lib/cuckoo/common/quarantine.py: RC4, the key schedulings, and the Microsoft,
--                     Malwarebytes, Kaspersky, Trend Micro, Symantec (Sep) and xorff decoders; Dispatch:
--                     the one for McAfee, and unquarantine, which chooses. Proofs in Mse, Kav.Body,
--                     Trend.Body, Sep.Reading, Sep.Chunks, Sep.Roundtrip and Dispatch.Stores. The MD5
--                     digest, crc32, olefile and Python's text functions are parameters.
-- PrettyPrint         lib/cuckoo/common/utils_pretty_print_funcs.py: the flag decoders, each as the
--                     list of its tests; proofs in Hex and Lossless.
-- ResultServer        lib/cuckoo/core/resultserver.py. Lines: HandlerContext.read and read_newline over the
--                     list of the results of recv; Limiter: WriteLimiter and copy_to_fd; Names:
--                     netlog_sanitize_fname; Protocol: negotiate_protocol; Upload: FileUpload.handle on
--                     top of these; Streams: LogHandler and BsonStore; Sessions: the tasks and connections of
--                     GeventResultServerWorker, whose handlers are steps between which others act.
--                     Proofs in Lines.Chunking, Limiter.Truncation, Names.Inside, Upload.Stored and
--                     Sessions.Cancel. Python's int on a byte string, UTF-8 decoding, and whether
--                     a file exists and can be opened, are parameters.
-- Aplib               lib/cuckoo/common/aplib.py. Reader: APDSTATE, ap_getbit, ap_getgamma and the bytes;
--                     Depack: ap_depack and decompress; Header: strip_header and aplib_decompress.
--                     Depack.Encode describes the format on its own; proofs in Depack.Ends,
--                     Depack.Reads, Depack.Gamma, Depack.Roundtrip and Header.
-- GuestManager        lib/cuckoo/core/guest.py, on top of Database.Guests. Wait: wait_available and
--                     wait_for_completion; Start: start_analysis, as the requests that it sends. Proofs
--                     in Wait.Ends and Start.Order, with the plan in Start.Plan; Start.Follows is the
--                     rule for code that follows a plan of requests. Scheduler.World takes the outcomes
--                     of both as parameters.
-- Agent               agent/agent.py, the other end of these requests. Handlers: the functions of the
--                     routes; Server: the table of routes and MiniHTTPServer.handle. Proofs in
--                     Server.Pinned, Server.Report and Server.Obeys, which joins it to GuestManager.
--                     What the operating system does is a parameter.
-- Behavior            modules/processing/behavior.py. Tree: ProcessTree; Calls, Texts, Marks and Summary: the
--                     class Summary, each branch as the list of its appends; Buffers: EncryptedBuffers.
--                     Proofs in Tree.Once, Tree.Linked, Tree.Placed, Summary.Collected and
--                     Summary.Parts. Python's int, strip, lower and encode are parameters.
-- Signatures          lib/cuckoo/core/plugins.py, the class RunSignatures. Version:
--                     _check_signature_version; Evented: the loop that tells the evented signatures the
--                     calls; Run: process and the rest of run. Proofs in Evented.Walk, Evented.Skips,
--                     Evented.Once and Run.Sorted. The methods of the signatures, what the overlay sets
--                     and StrictVersion are parameters.
-- Base                names passed on from the libraries, lists, bytes, binary digits and integers.
--
-- Conventions. Numbers are natural numbers; a time is a number, and `datetime.now()` is an argument.
-- A failure of a database call is an input of the method (`Faults`), so a theorem for all faults
-- holds for every way in which the calls may fail. SQLAlchemy is not modelled beyond that: a query
-- reads the rows in their order, and a commit writes the changed row back by its primary key.
-- `fetch` orders the rows by its two keys and keeps the database's order where they are equal; a
-- NULL in `options` does not pass its filter, as in SQL. Other threads act on the machine
-- table between the rounds of `acquire_machine`: each round brings the table that it finds.
-- What a connection sends is the list of what its calls of `recv` return or raise; where a loop has
-- used up the list it says `waiting`.
-- The calls of `launch_analysis` on the hypervisor, the guest manager, the auxiliary modules and
-- the rooter return or raise an exception that the environment names; those calls are the
-- parameters of the model. `machine_lock` is counted for one thread.
--
-- Bounds. `_wait_status` gets `vm_state + 2` rounds, which is where its timeout is reached. The
-- loops of `acquire_machine`, of the retries in `run` and of `Scheduler.start` may go on for ever;
-- they get a list of rounds and say `blocked` or `waiting` after the last, and so do the loops of the
-- guest manager. The loop over the evented signatures gets as many rounds as there are signatures,
-- since each moves on by one position. The loop of
-- `kav_unquarantine` gets `metalen + 1` rounds, since an entry takes more than four bytes of the
-- metadata; the loop of `trend_unquarantine` gets as many rounds as there are bytes, since each
-- takes one. The loops of aPLib get one round more than there are bits left, since a round takes a
-- bit. The digits of a number get as many rounds as the number plus its width. A number of aPLib
-- data is not cut to a machine width, as Python's are not; `struct` reads and writes 32 bits.
-- `sep_unquarantine` has 20000 rounds of its own.
--
-- Not modelled: logging, the file system beyond the existence of the analysis folder and the files
-- of an upload, the routes and processes behind the external calls, the columns of the tables that
-- no modelled method reads, the unpacking of archives on submission, rescheduling, the listings and
-- the statistics of the database, the start of the ResultServer and its folders, the packing of the
-- analyzer and the contents of the files that the guest manager sends, the forms and the answers of
-- the agent as HTTP, the parser of the behavior logs and its classes Anomaly and Enhanced, the
-- score, the ttps and the statistics of RunSignatures (the score is computed with floats), and all
-- parts of the repository that the list above does not name.
pub mod Base
pub mod Database
pub mod Machinery
pub mod Scheduler
pub mod Quarantine
pub mod PrettyPrint
pub mod ResultServer
pub mod Aplib
pub mod Behavior
pub mod Signatures
pub mod GuestManager
pub mod Agent
