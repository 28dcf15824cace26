-- ===== src/ObservationMap.antt =====
-- components/ObservationMap.tsx
pub mod Points
pub mod State
pub mod Sidebar
