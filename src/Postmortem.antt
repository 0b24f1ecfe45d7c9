-- ===== src/Postmortem.antt =====
-- The post-mortem package (src/kdive/postmortem/crash): the commands that a caller may give to the
-- crash utility, and the script of a batch of them.
pub mod Commands
pub mod Batch
