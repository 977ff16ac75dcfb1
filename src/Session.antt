-- ===== src/Session.antt =====
-- src/radar-session: which source the operator asked for, and which one is proven painted.
pub mod Source
pub mod Coordinator
pub mod Calls
pub mod Supersede
pub mod Invariant
pub mod Paint
pub mod Notify
pub mod Adapters
pub mod AutoSource
pub mod Tests
