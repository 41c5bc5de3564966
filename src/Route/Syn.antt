-- ===== src/Route/Syn.antt =====
-- internal/utils/route/syn.go: `parseSYNLine`, which `WatchSYN` applies to each line of `tcpdump`.
pub mod Line
pub mod Sound
pub mod Watch
use cisco_socks_server.Prelude.{ℕ, List, [], ◌∷◌, Option, none, some, Bytes, bytes, ◌>>=◌}
use cisco_socks_server.Strings.{fields, cut, before_last}
use cisco_socks_server.Net.Addr.{Addr, v4, V6Text, parse_addr}
use cisco_socks_server.Route.Arp.{canonical_mac}

first_field : List Bytes → Option Bytes
first_field [] = none
first_field (f ∷ fs) = some f

second_field : List Bytes → Option Bytes
second_field (f ∷ g ∷ fs) = some g
second_field _ = none

-- An IPv4 address, by `addr.Is4()`.
unfoldable pub only_v4 : Addr → Option ℕ
only_v4 (v4 a) = some a
only_v4 _ = none

module _ ⦃t : V6Text⦄ where
  -- `parseSYNLine`: the source address and hardware address of a line.
  unfoldable pub parse_syn_line : Bytes → Option (ℕ × Bytes)
  unfolding first_field second_field
  parse_syn_line line = do
    source ← first_field (fields line)
    mac ← canonical_mac source
    (before, rest) ← cut line (bytes ", length ")
    endpoint ← second_field (fields rest)
    host ← before_last endpoint b'.'
    addr ← parse_addr host
    ip ← only_v4 addr
    some (ip, mac)
