-- ===== src/Runtime.antt =====
-- src/rtmem.cpp with include/rtmem/rtmem.h and src/backend.hpp: the region runtime behind the C ABI.
mod Types
mod Storage
mod Maintenance
mod Buffers
mod Access
mod Tracing
mod Allocation
mod Pointers
mod Polling
mod Regions
mod Creation
mod Startup
mod Accounts
mod Moves
mod Preservation
mod Frames
mod Presence
mod Sweeps
mod Composites
mod RegionSweeps
mod Calls
mod Histories
mod Expiry
mod Upkeep
mod Deadlines
mod Examples
mod Inspection
