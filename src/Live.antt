-- ===== src/Live.antt =====
-- Live try-on sessions: src/modules/try-on/live-try-on.service.ts.
pub mod Tables
pub mod Reserve
pub mod Sessions
pub mod Books
pub mod Updates
pub mod Closing
pub mod Preservation
pub mod Holding
pub mod Admission
pub mod History
pub mod LateRelease
pub mod FreeSeconds
pub mod Drained
