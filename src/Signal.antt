-- ===== src/Signal.antt =====
-- pages/Signal.tsx: the page of one record.
pub mod Record
pub mod Page
pub mod Clipboard
