-- ===== src/RateLimit.antt =====
-- handler/ratelimit: the ring buffer of start times, the limiter's loop, its configuration.
pub mod Ring
pub mod Limiter
pub mod Config
