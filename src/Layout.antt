-- ===== src/Layout.antt =====
-- frontend/layout/lib: the tiling layout of a tab.
pub mod Types
pub mod Node
pub mod Tree
pub mod Drop
pub mod Model
mod Tests
