-- ===== src/Contracts.antt =====
-- The contract_intelligence context: src/contract_intelligence. `Status` has the status machines,
-- `Runs`, `Review`, `Document`, `Template` and `Generated` the entities, `Store` the unit of work
-- and its repositories, `Ingestion`, `Analysis` and `Documents` the services; the other children
-- hold proofs.
pub mod Status
pub mod Runs
pub mod Review
pub mod Document
pub mod Template
pub mod Generated
pub mod Store
pub mod Ingestion
pub mod Analysis
pub mod Documents
pub mod Calls
pub mod Lifecycle
mod Tests
