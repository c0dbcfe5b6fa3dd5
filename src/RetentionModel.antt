-- ===== src/RetentionModel.antt =====
-- sim/retention_model.hpp and sim/retention_model.cpp: the line-granular reference model.
mod Types
mod Banks
mod Memory
mod Slots
mod Consistency
mod Preservation
mod Placement
mod Histories
mod Contents
mod Writes
mod Deadlines
pub mod Examples
unfoldable pub use Types.*
unfoldable pub use Banks.*
unfoldable pub use Memory.*
