-- ===== src/Tests/Pinner.antt =====
-- internal/service/service.go and sniff.go: the pinner and the sniffer, over a table of the kernel.
use cisco_socks_server.Prelude.{
  retain, ◌++◌, map_values, ◌*◌, true, false, List, [], ◌∷◌, some, Bytes, bytes, ◌≡◌, ◌≢◌, refl,
  All, str_eq, lookup, insert, lookup-insert, str_eq_refl,
}
use cisco_socks_server.Strings.{split, join}
use cisco_socks_server.Net.Mac.{parse_mac, octets, quads, print_mac}
use cisco_socks_server.Net.Addr.{
  v4, print_addr, print_v4, print_decimal, parse_addr, read_v4, read_fields, read_field,
  contains_addr,
}
use cisco_socks_server.Route.Arp.{ArpEntry, canonical_mac, restore_zero, same_mac}
use cisco_socks_server.Service.State.{minute}
use cisco_socks_server.Service.Clients.{ClientEntry, reset_network, lookup_client}
use cisco_socks_server.Service.Pinner.{look_up, PinOps, Pinning, pin_client, pin_clients, skipped}
use cisco_socks_server.Service.Pinner.Calls.{IsAllowed, pin_clients-IsAllowed}
use mathlib.Core.List.{Permᴰ}
use cisco_socks_server.Service.Pinner.Plan.{on_lan}
use cisco_socks_server.Service.Pinner.Network.{VisitsOnly, pin_clients-reset_network}
use cisco_socks_server.Service.Sniffer.Stale.{registered_mac, late_frame, late_frame_pinned}
use cisco_socks_server.Service.State.{State}
use cisco_socks_server.Service.Sniffer.{see, agrees, repin_stale, known_mac, observe_syn}
use cisco_socks_server.Service.Sniffer.Frame.{IsKernel, IsPeer, observe_syn_wins}
use cisco_socks_server.Tests.Samples.{
  sample_v6, phone, phone_ip, phone_mac, other_mac, en0, at_home, discovered, one_client,
}

-- The kernel's table: every pin succeeds.
abbrev Table : Type 0
Table = List (Bytes × ArpEntry)

table_ops : PinOps Table
table_ops = record {
  lookup = λ ip w. (lookup ip w, w);
  pin = λ ip mac iface w. (true, insert ip (record { mac = mac; iface = iface }) w);
}

lookup-inserted : (ip : Bytes) (e : ArpEntry) (w : Table) → lookup ip (insert ip e w) ≡ some e
lookup-inserted ip e w = rw (lookup-insert ip ip e w, str_eq_refl ip)

table-IsKernel : IsKernel table_ops
unfolding table_ops
table-IsKernel = record {
  read_only = λ ip w. refl;
  pin_sets = λ ip mac iface w h. lookup-inserted ip (record { mac = mac; iface = iface }) w;
}

-- The entry of the client from before its address changed.
abbrev stale : ArpEntry
stale = record { mac = other_mac; iface = en0 }

abbrev pinning : Pinning Table
pinning = record { clients = one_client; world = (phone, stale) ∷ []; pins = [] }

-- The tunnel has taken the route of the client.
abbrev tunnelled : Pinning Table
tunnelled = record pinning { world = (phone, record stale { iface = bytes "utun4" }) ∷ [] }

abbrev in_order : List (Bytes × Bytes) → List (Bytes × Bytes)
in_order l = l

pin_clients-IsAllowed_example :
    All (IsAllowed table_ops at_home) (pin_clients table_ops in_order at_home tunnelled).pins
pin_clients-IsAllowed_example = pin_clients-IsAllowed table_ops at_home in_order tunnelled tt

-- Two clients, which the map may visit in either order.
abbrev two_clients : Pinning Table
two_clients = record tunnelled { clients = (bytes "192.168.0.7", discovered) ∷ one_client }

abbrev reversed : List (Bytes × Bytes) → List (Bytes × Bytes)
reversed l = elim l [ [] ↦ [] | a ∷ rest ↦ rest ++ (a ∷ []) ]

abbrev moved : Pinning Table
moved = record pinning { clients = reset_network one_client }

in_order-VisitsOnly : VisitsOnly in_order
in_order-VisitsOnly = λ l P h. h

pin_clients-reset_network_example : (pin_clients table_ops in_order at_home moved).pins ≡ []
pin_clients-reset_network_example =
    pin_clients-reset_network table_ops at_home in_order moved one_client in_order-VisitsOnly refl

phone-not-skipped : skipped at_home phone ≡ false
unfolding skipped parse_addr read_v4 read_fields read_field split contains_addr print_v4
    print_decimal join str_eq
phone-not-skipped = refl

stale-found : (table_ops.lookup phone pinning.world).0 ≡ some stale
unfolding table_ops lookup str_eq
stale-found = refl

macs-differ : same_mac other_mac phone_mac ≡ false
unfolding same_mac canonical_mac parse_mac octets quads print_mac split join restore_zero str_eq
macs-differ = refl

phone-known : lookup phone one_client ≡ some discovered
unfolding lookup str_eq
phone-known = refl

phone-IsPeer : IsPeer at_home (v4 phone_ip)
unfolding contains_addr
phone-IsPeer = (refl, refl, refl)

printed : print_addr (v4 phone_ip) ≡ phone
unfolding print_v4 print_decimal join
printed = refl

frame_is_canonical : canonical_mac phone_mac ≡ some phone_mac
unfolding canonical_mac parse_mac octets quads print_mac split join restore_zero
frame_is_canonical = refl

frame_is_new : phone_mac ≢ known_mac (lookup_client one_client (print_addr (v4 phone_ip)))
unfolding lookup_client lookup str_eq print_v4 print_decimal join
frame_is_new = λ e. cc

stale-found-printed : (table_ops.lookup (print_addr (v4 phone_ip)) pinning.world).0 ≡ some stale
unfolding table_ops lookup str_eq print_v4 print_decimal join
stale-found-printed = refl

stale-differs : other_mac ≢ phone_mac
stale-differs = λ e. cc

pin_succeeds : (table_ops.pin (print_addr (v4 phone_ip)) phone_mac en0 pinning.world).0 ≡ true
unfolding table_ops
pin_succeeds = refl

abbrev observed : Pinning Table
observed = observe_syn table_ops at_home (v4 phone_ip) phone_mac (2 * minute) pinning

observe_syn_wins_example :
    (c : ClientEntry) × (lookup (print_addr (v4 phone_ip)) observed.clients ≡ some c)
    × (c.mac ≡ phone_mac)
    × (c.last_seen ≡ 2 * minute)
    × ((pin_client table_ops at_home (print_addr (v4 phone_ip), c.mac) observed).clients
        ≡ observed.clients)
    × ((pin_client table_ops at_home (print_addr (v4 phone_ip), c.mac) observed).pins
        ≡ observed.pins)
observe_syn_wins_example =
    observe_syn_wins table_ops at_home (v4 phone_ip) phone_mac (2 * minute) pinning stale
      table-IsKernel phone-IsPeer refl frame_is_canonical frame_is_new stale-found-printed refl
      stale-differs pin_succeeds

-- The same addresses on another interface, where the kernel knows no client yet.
abbrev elsewhere : State
elsewhere = record at_home { lan_interface = bytes "en7" }

abbrev unpinned : Pinning Table
unpinned = record pinning { world = [] }

elsewhere-not-skipped : skipped elsewhere (print_addr (v4 phone_ip)) ≡ false
unfolding skipped parse_addr read_v4 read_fields read_field split contains_addr print_v4
    print_decimal join str_eq
elsewhere-not-skipped = refl

late-unresolved :
    on_lan
      (table_ops.lookup
        (print_addr (v4 phone_ip))
        (late_frame table_ops at_home (v4 phone_ip) phone_mac (2 * minute) unpinned).world).0
      elsewhere.lan_interface
    ≡ false
unfolding table_ops observe_syn see repin_stale look_up agrees str_eq contains_addr print_v4
    print_decimal join lookup lookup_client reset_network retain map_values
late-unresolved = refl

late_frame_pinned_example :
    let late = late_frame table_ops at_home (v4 phone_ip) phone_mac (2 * minute) unpinned in
    (pin_client table_ops elsewhere
      (print_addr (v4 phone_ip), registered_mac table_ops (v4 phone_ip) late)
      late).pins
    ≡ late.pins
      ++ (record { ip = print_addr (v4 phone_ip); mac = phone_mac; iface = bytes "en7" } ∷ [])
late_frame_pinned_example =
    late_frame_pinned table_ops at_home elsewhere (v4 phone_ip) phone_mac (2 * minute) unpinned
      phone-IsPeer refl elsewhere-not-skipped late-unresolved
