-- ===== src/Sessions.antt =====
-- src/sessions: portal sessions, their cookies and use cases.
pub mod Model
pub mod UseCases
pub mod Slices
pub mod Cookie
pub mod Histories
pub mod Same
pub mod Owner
pub mod Merging
pub mod Tests
