-- ===== src/Tests/Route.antt =====
-- internal/utils/route.
use cisco_socks_server.Prelude.{
  true, false, [], ◌∷◌, ◌++◌, none, some, bytes, ◌≡◌, refl, ◌↔◌, All, arith, str_eq, inl, inr,
}
use cisco_socks_server.Strings.{split, join, fields, has_prefix, IsWord, is_word, is_word-IsWord}
use cisco_socks_server.Net.Mac.{parse_mac, octets, quads, print_mac}
use cisco_socks_server.Net.Addr.{v4, parse_addr, print_v4, read_v4, read_fields, read_field}
use cisco_socks_server.Net.Addr.Text.{parse_addr_v4_iff}
use cisco_socks_server.Route.Arp.{
  ArpEntry, canonical_mac, restore_zero, parse_arp_entry, checked_entry, scan_fields, take_field,
}
use cisco_socks_server.Route.Arp.Mac.{print_short, canonical_mac-print_short, canonical_mac_idem}
use cisco_socks_server.Route.Arp.Line.{arp_line, IsPlain, parse_arp_entry-line}
use cisco_socks_server.Route.Lan.{
  IfAddr, ip_net, Interface, Host, found, default_lan, detect_lan, parse_default_non_tunnel, to4,
  mask_size, mask_ones, byte_ones, ipv4_bits, ipv4_prefix, first_addr, default_netif, last_field,
}
use cisco_socks_server.Route.Lan.Usable.{IsUsableLan, detect_lan_usable}
use cisco_socks_server.Route.Lan.Pick.{HasLan, detect_lan_sticky}
use cisco_socks_server.Route.Syn.{parse_syn_line}
use cisco_socks_server.Route.Syn.Line.{syn_line, parse_syn_line-line}
use cisco_socks_server.Tests.Samples.{
  sample_v6, phone_octets, phone_octets-IsMac, phone_mac, phone_short, phone_ip, phone, en0,
}

short_is_canonical : canonical_mac phone_short ≡ some phone_mac
unfolding canonical_mac parse_mac octets quads print_mac split join restore_zero
short_is_canonical = refl

canonical_mac-print_short_example :
    canonical_mac (print_short phone_octets) ≡ some (print_mac phone_octets)
canonical_mac-print_short_example = canonical_mac-print_short phone_octets phone_octets-IsMac

abbrev phone_entry : ArpEntry
phone_entry = record { mac = phone_mac; iface = bytes "utun4" }

plain : IsPlain en0
unfolding str_eq
plain = (refl, refl)

tail-IsPlain : All IsPlain (fields (bytes "ifscope [ethernet]"))
unfolding fields str_eq
tail-IsPlain = ((refl, refl), ((refl, refl), tt))

host-IsPlain : IsPlain (bytes "(192.168.0.42)")
unfolding str_eq
host-IsPlain = (refl, refl)

mac-IsPlain : IsPlain phone_short
unfolding str_eq
mac-IsPlain = (refl, refl)

host-IsWord : IsWord (bytes "(192.168.0.42)")
unfolding is_word
host-IsWord = is_word-IsWord (bytes "(192.168.0.42)") refl

short-IsWord : IsWord phone_short
unfolding is_word
short-IsWord = is_word-IsWord phone_short refl

mac-IsWord : IsWord phone_mac
unfolding is_word
mac-IsWord = is_word-IsWord phone_mac refl

en0-IsWord : IsWord en0
unfolding is_word
en0-IsWord = is_word-IsWord en0 refl

length-IsWord : IsWord (bytes "78:")
unfolding is_word
length-IsWord = is_word-IsWord (bytes "78:") refl

port-IsWord : IsWord (bytes "54321")
unfolding is_word
port-IsWord = is_word-IsWord (bytes "54321") refl

parse_arp_entry-line_example :
    parse_arp_entry (arp_line (bytes "(192.168.0.42)") phone_short en0 (bytes "ifscope [ethernet]"))
    ≡ some (record { mac = phone_mac; iface = en0 })
parse_arp_entry-line_example =
    parse_arp_entry-line (bytes "(192.168.0.42)") phone_short en0 (bytes "ifscope [ethernet]")
      phone_mac (host-IsWord, host-IsPlain) (short-IsWord, mac-IsPlain) (en0-IsWord, plain)
      tail-IsPlain short_is_canonical

incomplete :
    parse_arp_entry (bytes "? (192.168.0.42) at (incomplete) on en0 ifscope [ethernet]") ≡ none
unfolding parse_arp_entry checked_entry scan_fields take_field fields str_eq canonical_mac parse_mac
    split join restore_zero
incomplete = refl

parse_addr_v4_iff_example : (parse_addr phone ≡ some (v4 phone_ip)) ↔ (phone ≡ print_v4 phone_ip)
parse_addr_v4_iff_example = parse_addr_v4_iff phone phone_ip (omega arith)

leading_zero : parse_addr (bytes "192.168.0.042") ≡ none
unfolding parse_addr read_v4 read_fields read_field split
leading_zero = refl

mac_canonical : canonical_mac phone_mac ≡ some phone_mac
mac_canonical = (canonical_mac_idem phone_short short_is_canonical).0

parse_syn_line-line_example :
    parse_syn_line (
      syn_line phone_mac
        (bytes "12:49:61:d3:72:48")
        (bytes "78:")
        (print_v4 phone_ip ++ (b'.' ∷ bytes "54321"))
        (bytes "> 192.168.0.105.8080: Flags [S]"))
    ≡ some (phone_ip, phone_mac)
parse_syn_line-line_example =
    parse_syn_line-line phone_mac (bytes "12:49:61:d3:72:48") (bytes "78:") (bytes "54321")
      (bytes "> 192.168.0.105.8080: Flags [S]") phone_mac phone_ip (omega arith)
      (mac-IsWord, omega arith, mac_canonical) (omega arith) length-IsWord
      (port-IsWord.1, omega arith)

abbrev home_nic : Interface
home_nic = record {
  name = en0;
  up = true;
  loopback = false;
  point_to_point = false;
  addrs =
      some
        (ip_net (record { ip = 192 ∷ 168 ∷ 0 ∷ 105 ∷ []; mask = 255 ∷ 255 ∷ 255 ∷ 0 ∷ [] }) ∷ []);
}

abbrev usb_nic : Interface
usb_nic = record home_nic { name = bytes "en7" }

-- The VPN holds the default route.
abbrev on_vpn : Host
on_vpn = record {
  netstat = some (bytes "default  10.0.0.1  UGScg  utun4");
  by_name = λ name. none;
  interfaces = some (usb_nic ∷ home_nic ∷ []);
}

detect_lan_usable_example : IsUsableLan (detect_lan on_vpn en0)
detect_lan_usable_example = detect_lan_usable on_vpn en0

no_default : default_lan on_vpn ≡ none
unfolding default_lan parse_default_non_tunnel split default_netif fields last_field has_prefix
    str_eq
no_default = refl

abbrev home_addr : IfAddr
home_addr = record { addr = 0xc0a80069; bits = 24 }

home-HasLan : HasLan (usb_nic ∷ home_nic ∷ []) en0 home_addr
unfolding first_addr ipv4_prefix to4 mask_size mask_ones byte_ones ipv4_bits has_prefix
home-HasLan = inr (
    inl (
      record {
        is_up = refl;
        no_loopback = refl;
        no_link = refl;
        no_tunnel = refl;
        listed = (_, refl, refl);
      },
      refl,
    ))

detect_lan_sticky_example :
    (b : IfAddr) × (detect_lan on_vpn en0 ≡ found b en0) × HasLan (usb_nic ∷ home_nic ∷ []) en0 b
detect_lan_sticky_example =
    detect_lan_sticky on_vpn (usb_nic ∷ home_nic ∷ []) en0 home_addr no_default refl (cc)
      home-HasLan
