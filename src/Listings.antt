-- ===== src/Listings.antt =====
-- src/listings: the public read model of properties.
pub mod Model
pub mod Snapshot
pub mod Store
pub mod Cursor
pub mod Pages
pub mod Order
pub mod Paging
pub mod Walk
pub mod Projection
pub mod Handlers
pub mod Register
pub mod Newest
pub mod Convergence
pub mod Freshness
pub mod Search
pub mod Pipeline
pub mod Active
pub mod Visible
pub mod Tests
