-- ===== src/Jobs.antt =====
-- The jobs library: src/shared/jobs. `Model` has the job and its transitions, `Store` the
-- in-memory repository, `Tracker` the use cases behind `DefaultJobTracker`; the other children
-- hold proofs.
pub mod Model
pub mod Store
pub mod Tracker
pub mod History
pub mod Final
pub mod Listing
mod Tests
