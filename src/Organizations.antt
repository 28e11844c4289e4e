-- ===== src/Organizations.antt =====
-- The organizations context: src/organizations. `Permissions` has the roles, `Model` the domain
-- records, `Store` the in-memory repositories, `UseCases` and `Registration` the use cases; the
-- other children hold proofs.
pub mod Permissions
pub mod Model
pub mod Store
pub mod UseCases
pub mod Registration
pub mod Owners
pub mod Steps
pub mod Joining
mod Tests
