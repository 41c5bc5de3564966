-- ===== src/Service/Sniffer.antt =====
-- internal/service/sniff.go and clients.go: what a SYN and an accepted connection tell about a
-- client. The commands act on the world of the pinner.
pub mod Frame
pub mod Stale
use cisco_socks_server.Prelude.{
  ℕ, Bool, true, false, not, ◌||◌, ◌&&◌, Option, none, some, Bytes, [], if◌then◌else◌, is_empty,
  str_eq,
}
use cisco_socks_server.Net.Addr.{Addr, v4, V6Text, print_addr, contains_addr, addr_eq}
use cisco_socks_server.Route.Arp.{ArpEntry}
use cisco_socks_server.Service.State.{State}
use cisco_socks_server.Service.Clients.{seen, lookup_client, needs_refresh}
use cisco_socks_server.Service.Pinner.{PinOps, Pinning, pin_now, look_up}

abbrev pub known_mac : Option (Bytes × ℕ) → Bytes
known_mac none = []
known_mac (some (mac, last_seen)) = mac

-- `s.clients.seen`, where the result is not used.
unfoldable pub see : {W : Type 0} → Bytes → Bytes → ℕ → Pinning W → Pinning W
see ip mac now s = record s { clients = (seen s.clients ip mac now).0 }

-- The kernel's entry needs no pin: there is none, it is not on the LAN, or it agrees.
unfoldable pub agrees : State → Bytes → Option ArpEntry → Bool
agrees state mac none = true
agrees state mac (some e) = not (str_eq e.iface state.lan_interface) || str_eq e.mac mac

-- The address of an entry on the LAN interface.
unfoldable pub lan_mac : State → Option ArpEntry → Bytes
lan_mac state none = []
lan_mac state (some e) = if str_eq e.iface state.lan_interface then e.mac else []

module _ {W : Type 0} (ops : PinOps W) where
  -- `repinStale`
  unfoldable pub repin_stale : State → Bytes → Bytes → Pinning W → Pinning W
  repin_stale state ip mac s =
      let found = (ops.lookup ip s.world).0 in
      if not state.cisco_connected
      then s
      else if agrees state mac found
      then look_up ops ip s
      else pin_now ops ip mac state.lan_interface (look_up ops ip s)

  module _ ⦃t : V6Text⦄ where
    -- `observeSYN`
    unfoldable pub observe_syn : State → Addr → Bytes → ℕ → Pinning W → Pinning W
    observe_syn state ip mac now s =
        let key = print_addr ip in
        let old = known_mac (lookup_client s.clients key) in
        if is_empty state.lan_interface
          || not (contains_addr state.lan_subnet ip)
          || addr_eq ip state.lan_addr
        then s
        else see key mac now (if str_eq mac old then s else repin_stale state key mac s)

    -- `discoverClient`, for the peer's address if there is one.
    unfoldable pub discover_client : State → Option Addr → ℕ → Pinning W → Pinning W
    discover_client state none now s = s
    discover_client state (some ip) now s =
        let key = print_addr ip in
        let found = (ops.lookup key s.world).0 in
        if is_empty state.lan_interface || not (contains_addr state.lan_subnet ip)
        then s
        else if not (needs_refresh (lookup_client s.clients key) now)
        then s
        else see key (lan_mac state found) now (look_up ops key s)
