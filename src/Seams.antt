-- ===== src/Seams.antt =====
-- The seams package (src/kdive/seams): the facts that the layers above exchange, and the policies
-- behind small interfaces.
pub mod Target
pub mod Routing
pub mod TransportState
pub mod BreakPolicy
pub mod Guard
pub mod SessionGuard
pub mod Watchdog
pub mod Secrets
pub mod Lifecycle
