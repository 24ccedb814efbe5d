-- ===== src/Tests.antt =====
-- Runs of the models on concrete inputs, and the theorems at inputs that meet their hypotheses.
mod RateLimit
mod Cache
mod Errors
mod Access
mod Middleware
mod Mux
mod Transport
mod Writer
mod Jwt
mod BasicAuth
mod Sequence
mod Endpoint
mod Validate
mod SyncedJson
mod Jwk
mod Merge
