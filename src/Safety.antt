-- ===== src/Safety.antt =====
-- The global safety decision of the shadow-live session.
pub mod Decision
pub mod Facts
pub mod Laws
pub mod Allowed
mod Examples
