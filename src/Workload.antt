-- ===== src/Workload.antt =====
-- sim/workload_trace.cpp with src/trace_writer.cpp: the trace format and the replay of a trace on the
-- evidence model.
mod Text
mod Events
mod Writer
mod Numbers
mod Tokens
mod Log
mod Rows
mod RoundTrip
mod Counters
mod Placement
mod Maintenance
mod Ranges
mod Oracle
mod Lifecycle
mod Access
mod Replay
mod Balance
mod Upkeep
mod Books
mod Ledger
mod Runs
mod Safety
mod Reads
mod Streams
mod Onward
mod Clocks
mod Examples
