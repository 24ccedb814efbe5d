-- ===== src/Middleware.antt =====
-- The middleware of handler/middleware/.
pub mod AllowedMethods
pub mod Cors
