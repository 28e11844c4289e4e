-- ===== src/Bookings.antt =====
-- The bookings context: src/bookings. `Model` has the domain records, `Store` the unit of work
-- and the SQL repositories, `Services` the slot, booking and applicant services; the other
-- children hold proofs.
pub mod Model
pub mod Store
pub mod Services
pub mod Calls
pub mod Rows
pub mod Consistency
pub mod History
pub mod Outcomes
pub mod Once
pub mod Screening
mod Tests
