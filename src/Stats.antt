-- ===== src/Stats.antt =====
-- pages/Stats.tsx
pub mod Rates
pub mod Window
pub mod Csv
pub mod Links
pub mod Snapshot
pub mod Bars
pub mod Panels
