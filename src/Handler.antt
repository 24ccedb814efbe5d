-- ===== src/Handler.antt =====
-- The handlers of handler/.
pub mod Errors
