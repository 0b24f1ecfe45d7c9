-- ===== src/Coordination.antt =====
-- The coordination package (src/kdive/coordination): who may attach to a target, and when.
pub mod Admission
pub mod Lease
pub mod Selection
pub mod Registry
pub mod ExecProbe
pub mod EndpointSafety
pub mod Transaction
