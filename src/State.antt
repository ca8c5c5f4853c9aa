-- ===== src/State.antt =====
-- The data that the components share.
pub mod Config
pub mod Node
pub mod Station
pub mod Store
