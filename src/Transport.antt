-- ===== src/Transport.antt =====
-- Parts of handler/transport/: the health probe of a backend, the request for a token, and the header of a
-- request to an origin.
pub mod Probe
pub mod TokenRequest
pub mod Headers
