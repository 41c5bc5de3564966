-- ===== src/Net.antt =====
-- What the program uses of Go's `net` and `net/netip`: hardware addresses and IP addresses.
pub mod Mac
pub mod Addr
