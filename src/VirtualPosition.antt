-- ===== src/VirtualPosition.antt =====
-- src/mss/analysis/virtual_position_engine.py: the life of one paper position.
pub mod Engine
pub mod Lifecycle
pub mod Opening
pub mod Updates
mod Examples
