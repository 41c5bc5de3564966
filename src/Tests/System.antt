-- ===== src/Tests/System.antt =====
-- internal/service/service.go: the goroutines in turn.
use cisco_socks_server.Shell.{Ran}
use cisco_socks_server.Route.Commands.{Args}
use cisco_socks_server.Prelude.{
  not, listed, Bytes, bytes, Bool, true, false, [], some, ◌≡◌, refl, if◌then◌else◌,
}
use cisco_socks_server.Strings.{fields, cut, before_last, has_prefix, split, join}
use cisco_socks_server.Net.Mac.{parse_mac, octets, quads, print_mac}
use cisco_socks_server.Net.Addr.{parse_addr, read_v4, read_fields, read_field}
use cisco_socks_server.Route.Arp.{canonical_mac, restore_zero}
use cisco_socks_server.Route.Syn.{parse_syn_line, only_v4}
use cisco_socks_server.Tests.Samples.{sample_v6, phone_ip, phone_mac}

-- `arp -n` answers with an entry for the client once `arp -S` has been run.
abbrev entry_line : Bytes
entry_line = bytes "? (192.168.0.42) at 72:ce:39:12:45:f on en0 ifscope [ethernet]"

abbrev pub kernel : Args → Bool → Ran × Bool
kernel args w =
    if listed args (bytes "-S")
    then (record { output = []; failed = false }, true)
    else (record { output = entry_line; failed = not w }, w)

pub syn : Bytes
syn =
    bytes
      "72:ce:39:12:45:0f > 12:49:61:d3:72:48, ethertype IPv4 (0x0800), length 78: 192.168.0.42.54321 > 192.168.0.105.8080: Flags [S]"

pub syn-read : parse_syn_line syn ≡ some (phone_ip, phone_mac)
unfolding syn parse_syn_line fields cut before_last has_prefix only_v4 parse_addr read_v4
    read_fields read_field canonical_mac parse_mac octets quads print_mac split join restore_zero
syn-read = refl
