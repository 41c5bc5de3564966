-- ===== src/Route.antt =====
-- internal/utils/route: the ARP table, the LAN interface and the SYN sniffer's lines.
pub mod Arp
pub mod Lan
pub mod Syn
pub mod Commands
