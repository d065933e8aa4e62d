-- ===== src/WebAdmin.antt =====
-- pkg/webadmin: the stores and the health state of the admin plane.
pub mod AccountHealth
pub mod Persist
pub mod Logins
pub mod UsageLog
pub mod Keys
pub mod Sessions
pub mod Conversations
pub mod Resolver
pub mod AutoCleanup
pub mod AccountRotation
