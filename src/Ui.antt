-- ===== src/Ui.antt =====
-- src/ui: what the interface remembers.
pub mod RecentSites
