-- ===== src/Feed.antt =====
-- pages/Feed.tsx
pub mod Grouping
pub mod State
