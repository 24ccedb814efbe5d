-- ===== src/Access.antt =====
-- The access controls of accesscontrol/ and the handler that runs them.
pub mod List
pub mod Permissions
pub mod TokenSource
pub mod Jwt
pub mod Jwk
pub mod BasicAuth
