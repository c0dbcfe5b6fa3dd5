-- ===== src/Lib.antt =====
-- Retention tiles: a memory whose lines and buffers live in one of three retention classes (ephemeral,
-- epoch, durable) and are lost unless they are read, refreshed or moved before a deadline.
--
-- The parts, with their sources from the root of the repository:
--   RetentionModel: the reference model of a tile, sim/retention_model.hpp and .cpp. A `RetentionMemory`
--     has three banks of lines and a directory from logical addresses to slots. `write`, `read`,
--     `refresh`, `migrate`, `invalidate` and `advance` have the names of the member functions.
--   EvidenceModel: the cycle and energy model that the simulator replays traces on,
--     sim/evidence_model.hpp and .cpp, with the profile structure of sim/device_profile.hpp. It keeps
--     capacity accounts for each class and a ready time for each channel, and schedules operations.
--   Runtime: the region runtime behind the C interface, src/rtmem.cpp with include/rtmem/rtmem.h and
--     src/backend.hpp. A runtime owns regions, a region owns buffers, and each buffer has a class, a
--     deadline and an allocation of the backend. The functions with an `rt_` name are those of the
--     header; the functions whose name ends in `_locked` are the internal ones or the part of a call
--     behind the argument checks.
--   Workload: the trace writer of the runtime, src/trace_writer.hpp and .cpp, and the simulator's replay
--     of traces, sim/workload_trace.hpp and .cpp. Text and Events read the format, Writer writes it.
--     Counters, Placement, Maintenance, Ranges and Oracle have the helpers of the replay under their names;
--     Lifecycle and Access have the handlers of `replay_events`, one for each kind of event, and Replay
--     its loop. Numbers, Tokens, Log, Rows and RoundTrip lead from the writer to the reader; Balance,
--     Upkeep, Books, Ledger and Runs are on the accounts of a replay, Safety and Reads on what
--     maintenance promises a read, Streams, Onward and Clocks on the ready cycles of the
--     streams.
--   Prelude: numbers, lists, maps, classes and exceptions that the parts share.
--
-- Conventions. A 64-bit number is a natural number with its wrap-around written out (`add64`, `sub64`);
-- `infinite` is the largest one, which the sources use for an unlimited retention. Objects that C++
-- reaches by pointer stand in maps under a number. `Attempt` is the outcome of code that may return, throw,
-- or have undefined behaviour. Where the
-- reference model indexes a vector, an index out of range is `none`. `std::array` with one entry for each
-- class is `PerClass`; `std::unordered_map` is a list of keys and values with the operations `lookup`,
-- `insert` and `erase`. A text of a trace is the list of its bytes, and what a reader throws is modelled
-- without the path and the line number in front of the message. A loop over the lines of an access is a
-- recursion on the number of lines left. All recursion is structural, on lists or on counters. The rounds of
-- `ensure_retained` are the 100000 of the source, which throws behind them; `reserve_stronger` has two rounds,
-- since no class has more than two stronger ones; the digits of n take at most n + 1 rounds. A call of
-- `std::vector::at` throws out of range.
--
-- Parameters. Double arithmetic, `exp` and `std::mt19937_64` are the interface `Platform`; the backend
-- (host memory or XRT) is the interface `Backend`, and the trace writer is `TraceSink`. The file of a trace
-- is `OutputStream`, and the identity of the calling thread is an argument of each call of the writer.
-- Nothing is assumed of them; the round trip of traces is stated for a file that takes every byte.
--
-- Not modelled: reading of profiles, the simulator's program, the printing of reports and the fingerprint of
-- a trace, the analysis of lifetimes, the backends' own code, the C++ wrapper classes, the mutex of a runtime
-- (each call is one step), and the failure of the host allocator for objects of the runtime itself. The
-- histories of the runtime leave out the deletion of a region and the inspection of a buffer. A writer that
-- several runtimes share is one writer for each.
--
-- Where the model is coarser than the source: a monotonic clock is read once for a call, also where a call
-- takes the lock twice. Where the source would follow the null allocation of an active buffer, a mapping is an
-- error and the other calls of the backend count as done. The end of a region passes over a handle without an object.
pub mod Prelude
pub mod RetentionModel
pub mod EvidenceModel
pub mod Runtime
pub mod Workload
