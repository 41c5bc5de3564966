-- ===== src/Service/Clients.antt =====
-- internal/service/clients.go: the registry of LAN clients, keyed by the text of their addresses.
pub mod Registry
pub mod Expiry
pub mod Refine
use cisco_socks_server.Prelude.{
  ℕ, ◌*◌, Bool, true, false, not, ◌||◌, List, [], ◌∷◌, Option, none, some, Bytes, leb, ltb,
  if◌then◌else◌, is_empty, str_eq, ◌>>=◌, lookup, insert, retain, map_values,
}
use cisco_socks_server.Route.Arp.{canonical_mac}
use cisco_socks_server.Net.Addr.{Addr, V6Text, print_addr}
use cisco_socks_server.Service.State.{LanClient, time_sub, minute}

-- `discoveredClientTTL`, `clientRefreshInterval`
abbrev pub discovered_client_ttl : ℕ
discovered_client_ttl = 30 * minute

abbrev pub client_refresh_interval : ℕ
client_refresh_interval = minute

-- `clientEntry`
pub record ClientEntry : Type 0 where
  pub last_seen : ℕ
  pub mac : Bytes
  pub static : Bool

-- `clientRegistry`
abbrev pub Registry : Type 0
Registry = List (Bytes × ClientEntry)

abbrev pub or_empty : Option Bytes → Bytes
or_empty none = []
or_empty (some m) = m

-- The entry of a client from the configuration.
abbrev pub static_entry : LanClient → ClientEntry
static_entry lc = record { last_seen = 0; mac = or_empty (canonical_mac lc.mac); static = true }

add_static : List LanClient → Registry → Registry
add_static [] r = r
add_static (lc ∷ lcs) r = add_static lcs (insert lc.ip (static_entry lc) r)

-- `newClientRegistry`
unfoldable pub new_client_registry : List LanClient → Registry
unfolding add_static
new_client_registry static = add_static static []

-- `warnSelfClients`: the addresses that it warns of.
unfoldable pub self_clients : ⦃t : V6Text⦄ → List LanClient → Addr → List Bytes
self_clients [] self = []
self_clients (lc ∷ lcs) self =
    let rest = self_clients lcs self in
    if str_eq lc.ip (print_addr self) then lc.ip ∷ rest else rest

abbrev pub or_new : Option ClientEntry → ClientEntry
or_new none = record { last_seen = 0; mac = []; static = false }
or_new (some e) = e

-- What `seen` makes of an entry.
unfoldable pub touch : Bytes → ℕ → ClientEntry → ClientEntry
touch mac now e = record e { mac = if is_empty mac then e.mac else mac; last_seen = now }

abbrev is_new : Option ClientEntry → Bool
is_new none = true
is_new (some e) = false

-- `seen`: the registry, and whether the client is new.
unfoldable pub seen : Registry → Bytes → Bytes → ℕ → Registry × Bool
seen r ip mac now = (insert ip (touch mac now (or_new (lookup ip r))) r, is_new (lookup ip r))

-- `lookup`: the address and the time of a client that is known.
unfoldable pub lookup_client : Registry → Bytes → Option (Bytes × ℕ)
lookup_client r ip = do e ← lookup ip r; some (e.mac, e.last_seen)

-- `setMAC`
unfoldable pub set_mac : Registry → Bytes → Bytes → Registry
set_mac r ip mac = elim (lookup ip r) [ none ↦ r | some e ↦ insert ip (record e { mac = mac }) r ]

-- `snapshot`
unfoldable pub snapshot : Registry → List (Bytes × Bytes)
snapshot = map_values (λ e. e.mac)

-- The clients that `expire` keeps.
unfoldable pub stays : ℕ → ℕ → (Bytes → Bool) → Bytes → ClientEntry → Bool
stays now ttl live ip e = e.static || live ip || ltb (time_sub now e.last_seen) ttl

unfoldable pub expired_ips : ℕ → ℕ → (Bytes → Bool) → Registry → List Bytes
expired_ips now ttl live [] = []
expired_ips now ttl live ((ip, e) ∷ r) =
    let rest = expired_ips now ttl live r in if stays now ttl live ip e then rest else ip ∷ rest

-- `expire`: the registry, and the clients that were dropped.
unfoldable pub expire : Registry → ℕ → ℕ → (Bytes → Bool) → Registry × List Bytes
expire r now ttl live = (retain (stays now ttl live) r, expired_ips now ttl live r)

abbrev pub forget_mac : ClientEntry → ClientEntry
forget_mac e = record e { mac = [] }

-- `resetNetwork`
unfoldable pub reset_network : Registry → Registry
reset_network r = map_values forget_mac (retain (λ ip e. e.static) r)

-- `needsRefresh`; `none` is a client that is not known.
unfoldable pub needs_refresh : Option (Bytes × ℕ) → ℕ → Bool
needs_refresh none now = true
needs_refresh (some (mac, last_seen)) now =
    is_empty mac || leb client_refresh_interval (time_sub now last_seen)
