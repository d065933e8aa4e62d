-- ===== src/WebAdmin/Resolver.antt =====
-- pkg/webadmin/session_resolver.go: which stored session a request continues.
pub mod Messages
pub mod Bindings
pub mod Turns
pub mod Resolve
pub mod Prefix
pub mod Match
pub mod Unbind
pub mod Safety
pub mod Continuity
