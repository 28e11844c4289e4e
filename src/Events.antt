-- ===== src/Events.antt =====
-- The event transport: src/shared/events. `Retry` has the bounded publish, `Bus` the router, the
-- in-memory consumer and the worker's treatment of a message; the other children hold proofs.
pub mod Retry
pub mod Bus
pub mod Publishing
pub mod Delivery
mod Tests
