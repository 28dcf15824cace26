-- ===== src/InteractiveWorldMap.antt =====
-- components/InteractiveWorldMap.tsx
pub mod Clusters
pub mod View
pub mod Labels
