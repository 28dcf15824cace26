-- ===== src/CrossReference.antt =====
-- components/CrossReference.tsx
pub mod Otx
pub mod Rows
pub mod Associations
pub mod Panel
pub mod Cves
