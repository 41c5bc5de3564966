-- ===== src/Tests/Samples.antt =====
-- The inputs that the tests share.
use cisco_socks_server.Prelude.{
  ℕ, ◌+◌, ◌*◌, ◌^◌, refl, true, false, List, [], ◌∷◌, none, some, Bytes, bytes, str_eq,
  if◌then◌else◌, arith,
}
use cisco_socks_server.Net.Addr.{v4, V6Text, prefix}
use cisco_socks_server.Net.Mac.RoundTrip.{IsMac}
use cisco_socks_server.Service.State.{State, LanClient, minute}
use cisco_socks_server.Service.Clients.{Registry, ClientEntry}

-- IPv6 text: one mapped address is read, and nothing is printed.
instance abbrev pub sample_v6 : V6Text
sample_v6 = record {
  read = λ s.
      if str_eq s (bytes "::ffff:192.168.0.42")
      then some (0xffff * 2 ^ 32 + 0xc0a8002a, [])
      else none;
  print = λ a z. [];
}

-- 72:ce:39:12:45:0f, which macOS prints without the last zero.
abbrev pub phone_octets : List ℕ
phone_octets = 0x72 ∷ 0xce ∷ 0x39 ∷ 0x12 ∷ 0x45 ∷ 0x0f ∷ []

pub phone_octets-IsMac : IsMac phone_octets
phone_octets-IsMac = (omega arith, refl)

abbrev pub phone_mac : Bytes
phone_mac = bytes "72:ce:39:12:45:0f"

abbrev pub other_mac : Bytes
other_mac = bytes "76:c9:24:a8:c8:09"

abbrev pub phone_short : Bytes
phone_short = bytes "72:ce:39:12:45:f"

-- 192.168.0.42, as a number and as a text.
abbrev pub phone_ip : ℕ
phone_ip = 0xc0a8002a

abbrev pub phone : Bytes
phone = bytes "192.168.0.42"

abbrev pub en0 : Bytes
en0 = bytes "en0"

-- A service on 192.168.0.105/24 with the VPN up.
abbrev pub at_home : State
at_home = record {
  lan_subnet = prefix 0xc0a80000 24;
  lan_addr = v4 0xc0a80069;
  lan_interface = en0;
  cisco_connected = true;
  pf_disabled = true;
  proxy_started = true;
  dns_started = true;
}

abbrev pub phone_client : LanClient
phone_client = record { ip = phone; mac = phone_short }

abbrev pub discovered : ClientEntry
discovered = record { last_seen = minute; mac = other_mac; static = false }

-- One client that was discovered.
abbrev pub one_client : Registry
one_client = (phone, discovered) ∷ []
