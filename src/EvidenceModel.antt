-- ===== src/EvidenceModel.antt =====
-- sim/evidence_model.hpp and sim/evidence_model.cpp: the event-driven model behind trace replay.
pub mod Types
pub mod Schedule
pub mod Capacity
pub mod Memory
pub mod Migration
pub mod Accounting
pub mod Accesses
pub mod Transfers
pub mod Reservations
pub mod Ranges
mod Restoring
pub mod Queries
mod Timing
pub mod Histories
pub mod Examples
