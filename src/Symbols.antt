-- ===== src/Symbols.antt =====
-- The symbols package (src/kdive/symbols).
pub mod BuildId
