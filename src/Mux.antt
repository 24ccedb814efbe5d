-- ===== src/Mux.antt =====
-- server/mux.go: the router of a server. Its parts: the order of the path patterns, the test of a
-- request path against base paths, the routes that are registered, and the choice of the handler.
pub mod Paths
pub mod Order
pub mod Find
pub mod Routes
