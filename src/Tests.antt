-- ===== src/Tests.antt =====
-- Runs of the library on small concrete inputs.
mod Data
mod Fanout
mod Alerts
mod Mutes
mod Access
mod Engine
mod Streams
mod Shippers
mod Listeners
mod Secrets
