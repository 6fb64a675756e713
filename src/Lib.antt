-- ===== src/Lib.antt =====
-- A model of Maiter-P, a multi-threaded engine for delta-based accumulative iteration on graphs, and its
-- correctness. The repository's code is C++ templates over a key type K, a value type V and adjacency
-- data D. The three are parameters here, with what the code asks of them as the interfaces of Kernel.
--
-- The parts of the program, and where they are modelled:
--  * The interfaces of src/kernel/table.h (`IterateKernel`, `TermChecker`) are the records of Kernel and
--    Iterators/Pass. The vertex programs of src/examples implement them: Examples holds shortest paths,
--    Katz centrality, adsorption and PageRank, with the text handling of their `read_data`, their main
--    functions (Mains), and what a job of theirs computes (Distances, Unset).
--  * The hash table of vertex states, src/kernel/statetable.h, is StateTable: Defs (records, bucket
--    arithmetic, `bucket_for_key`), Access (`getF1` and its like, `updateF1`, `accumulateF1`), Put (`put`,
--    `resize`, the constructor). Its theory is in the other modules there: Probe and Walk (what a search
--    finds), Invariant (well-formedness, and the map that a table stands for), Room (counting), Insert,
--    Overwrite, Grow and Total (`put`), Latest and Resize, Lookup and Update.
--  * src/kernel/vertexlock-manager.h is Locks.
--  * What a job makes by `new` and gives back by `delete`, in all of the kernel and with the log entries of
--    its threads (src/util/logger.h), is Maiter/Lifetime, with Main and Leaks.
--  * The first phase of src/kernel/kernel.h (`MaiterKernel1`) is Maiter/Load, and the second, the workers'
--    `run_iter`, is Maiter/Iterate. Maiter/Threads makes it a step relation on the shared table and the
--    workers' output buffers; Vertex, Balance, Transit and Turn lead up to it. Maiter/Round is the rounds of the
--    workers (`run_loop`) over either iterator, with Kept, Filled, Shares and Few on them, and Frame on what a
--    round leaves alone. Maiter/Job puts the phases together (`runMaiter`): as a relation, with the workers
--    in any interleaving (Fixpoint, and Lines), and as a function, with the workers in turn (Ends).
--    Accumulation says what the argument asks of a vertex program.
--  * Maiter/Handshake is how the schedule thread and the workers of src/kernel/kernel.h wait for each
--    other (`obtain_iterator`, `run_loop`, `runexcutethread`), as a step relation: Phases, Invariant, Safety (the life
--    of the iterators), Progress and LostWakeup (where the threads go on, and where none can), Bounds, and
--    Families on sums over the workers.
--  * The iterators of src/kernel/statetable.h are Iterators: Intervals (the share of each thread), Pass
--    (`EntirePassIterator`, and the loops over it: `estimate_prog`, `serializeToSnapshot`, `dump`),
--    with Results and SameLines on what `dump` writes, Schedule (the choice of `ScheduledIterator`,
--    and `schedule_iterator`), with Sorted and Cut, Cursor (`Next`, `done` and the accessors of the other two iterators), and Termination
--    (`TermCheckers::Diff`, `termcheck`, `TermCheck` of src/kernel/globaltable.h).
--  * `TypedGlobalTable` of src/kernel/globaltable.h is Global, with its choice of the iterator.
--  * TypedTable is the interface of a table in src/kernel/table.h, with its methods on strings: Tables (the
--    two implementations), Strings (what they write and read), Descriptor (`TableDescriptor`, `TableBase`, and
--    `CreateTable` of src/kernel/table-registry.h). `Marshal` of src/util/common.h is Util/Marshal.
--  * src/util/logger.h is Logger: its state and formats, Output (`_log`, `_logbuf`, `_lograw`,
--    `set_log_file`), Stream (`start_stream`, the three `operator<<`, `stream_flush`), Parts and Lines (a line of one
--    thread) and Overlap (lines that overlap).
-- Util is the rest of src/util: the string pieces of src/util/stringpiece.h and src/util/stringpiece.cc, with
-- Splitting, Stripping and Search (`strnstr`); the configuration of src/util/configfile.h and
-- src/util/cmdopts.h, which are Config, with Trimming and Options; Hash (`SuperFastHash` of src/util/hash.h),
-- with Reads; Tuple (src/util/tuple.h), with Equality; Histogram, with Bars, and Stats, with Merge, of
-- src/util/common.h and src/util/common.cc; Registry, with Runs, of src/util/static-initializers.h and
-- src/util/static-initializers.cc; SpinLock, with Exclusion, and Proc (the queries to /proc), with Formats, Found
-- and Absent, of src/util/common.cc; and Timer, with Counted, of src/util/timer.h. Maiter/Settings is the settings of `MaiterKernel`, read from the options;
-- Util/Sharding holds `Sharding` of src/kernel/table.h and `range` of src/util/common.h.
-- Base holds what the modules share; its Outcome is the type of runs that may end in an exception, a failed
-- assertion or undefined behaviour. Samples are small tables and runs on which the theorems are applied.
--
-- Choices of the model. An `int` bucket number that does not fit is a fault, and the size that `put` asks of
-- `resize` is cut to 32 bits, as in the source; `int64_t` counters are unbounded. `put` and `resize` call each
-- other, so `put` has fuel for the depth of calls: two levels are enough. The search loops have the size of
-- the table as fuel, which is enough since they stop when they come back to their start; a pass has one more,
-- and `read_data` one more than the bytes of the line; `split` needs one more than its
-- parts. `float` and `double` are a type with the operations
-- that the code uses; laws of exact arithmetic are hypotheses of the theorems that use them. A step of a
-- worker is a region under one vertex lock: two regions under different locks touch different buckets, but
-- for the counter `total_updates`, on which the workers race.
--
-- The positions that the iterators draw at random are arguments. `pthread_cond_wait` may return with no
-- broadcast; the steps of Maiter/Handshake have such returns as an option, and its theorems are about runs
-- without them. A test of `count_wait` that fails is no step, since it changes nothing.
--
-- A log line is `log_fatal` of Base/Outcome where the program's statement ends in `std::endl`, as one thread
-- sees it: Logger/Lines shows that such a line throws, and Logger/Overlap when it does not. The text that
-- printf or a stream makes of a value is an argument, but for the head of a line of the log. A plain value is
-- marshalled as its bytes, the low byte first. `char` is signed.
--
-- The queries to /proc work on the bytes of the file, with `fscanf` written out for the directives they use,
-- and a fault where a numeral is beyond the type it is read into (undefined behaviour in C);
-- times are in nanoseconds, and what a clock reads is an argument.
--
-- Not modelled: opening files, the profiler, which is not built in, and random numbers, which come from
-- libraries; and messages of protobuf, which the program does not use.
mod Base
pub mod Kernel
pub mod StateTable
pub mod Locks
pub mod Iterators
pub mod Global
pub mod TypedTable
pub mod Logger
pub mod Accumulation
pub mod Maiter
pub mod Examples
pub mod Util
mod Samples
