-- ===== src/Service.antt =====
-- internal/service: the state of the service and the goroutines that work on it.
pub mod State
pub mod Clients
pub mod Pinner
pub mod Sniffer
pub mod Supervisor
pub mod Conns
pub mod Listener
pub mod Gate
pub mod Bind
pub mod Dns
pub mod System
pub mod SniffLoop
pub mod Proxy
pub mod Round
pub mod Rebind
pub mod Stages
pub mod Daemon
