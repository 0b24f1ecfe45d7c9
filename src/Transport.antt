-- ===== src/Transport.antt =====
-- The transport package (src/kdive/transport).
pub mod Rsp
