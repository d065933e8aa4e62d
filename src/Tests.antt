-- ===== src/Tests.antt =====
-- Runs of the theorems at concrete inputs.
mod Proxies
mod Streams
mod Admin
mod Tokens
mod Turns
mod Calls
mod Servers
