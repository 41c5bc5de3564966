-- ===== src/Tests/Network.antt =====
-- internal/service/lan.go and proxy.go: the listener of the LAN and its connections.
use cisco_socks_server.Prelude.{true, false, List, [], ◌∷◌, some, ◌≡◌, refl}
use cisco_socks_server.Net.Addr.{prefix}
use cisco_socks_server.Service.State.{LanSnapshot}
use cisco_socks_server.Service.Conns.{Tracker, watch_vpn}
use cisco_socks_server.Service.Conns.Lost.{
  Event, accepted, ended, lan_changed, run, has, no_conns, watch_vpn-closed,
}
use cisco_socks_server.Service.Listener.{Serving}
use cisco_socks_server.Tests.Samples.{en0}

abbrev three_conns : Tracker
three_conns = record { conns = (3, true) ∷ (2, false) ∷ (1, true) ∷ []; closed = [] }

abbrev home : LanSnapshot
home = record { subnet = prefix 0xc0a80000 24; iface = en0 }

abbrev away : LanSnapshot
away = record { subnet = prefix 0x0a000000 16; iface = en0 }

abbrev serving : Serving
serving = record { bound = some home; conns = three_conns; warned_no_lan = false }

-- One connection ends; the network changes; the VPN is lost.
abbrev evening : List Event
evening = accepted 1 true ∷ accepted 2 false ∷ accepted 3 true ∷ lan_changed ∷ ended 3 ∷ []

watch_vpn-closed_example :
    (has 2 (watch_vpn (true, run no_conns evening) false).1.closed ≡ true)
    × ((watch_vpn (true, run no_conns evening) false).1.conns ≡ [])
watch_vpn-closed_example = watch_vpn-closed evening 2 refl
