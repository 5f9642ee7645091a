-- ===== src/Explorer.antt =====
-- The topic explorer: frontend/src/components/explorer.
pub mod Tree
pub mod Highlight
pub mod Filter
