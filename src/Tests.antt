-- ===== src/Tests.antt =====
-- Concrete runs of the definitions, and the theorems applied to concrete inputs.
mod Samples
mod Route
mod Clients
mod Pinner
mod Supervisor
mod Network
mod Outside
mod System
mod Loops
mod Output
mod Rounds
mod Daemon
mod Bind
mod Rebind
