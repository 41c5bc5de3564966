-- ===== src/Service/Conns.antt =====
-- internal/service/proxy.go: `connTracker`. A connection is a number; closing one is recorded.
pub mod Drop
pub mod Lost
use cisco_socks_server.Prelude.{
  ℕ, suc, Bool, true, false, not, ◌&&◌, List, [], ◌∷◌, ◌++◌, Option, none, some, Bytes,
  if◌then◌else◌, ◌==◌, length,
}
use cisco_socks_server.Net.Addr.{Addr, V6Text, print_addr}

-- `connTracker`: the live connections, marked if the LAN listener accepted them, and those that
-- the tracker has closed.
pub record Tracker : Type 0 where
  pub conns : List (ℕ × Bool)
  pub closed : List ℕ

unfoldable pub delete : ℕ → List (ℕ × Bool) → List (ℕ × Bool)
delete c [] = []
delete c ((d, lan) ∷ cs) = let rest = delete c cs in if d == c then rest else (d, lan) ∷ rest

-- `add`, of a connection that was just accepted.
unfoldable pub add : Tracker → ℕ → Bool → Tracker
add t c lan = record t { conns = (c, lan) ∷ delete c t.conns }

-- `remove`
unfoldable pub remove : Tracker → ℕ → Tracker
remove t c = record t { conns = delete c t.conns }

unfoldable pub ids : List (ℕ × Bool) → List ℕ
ids [] = []
ids ((c, lan) ∷ cs) = c ∷ ids cs

-- `closeAll`: the tracker, and how many connections it closed.
unfoldable pub close_all : Tracker → Tracker × ℕ
close_all t = (record { conns = []; closed = t.closed ++ ids t.conns }, length t.conns)

-- The connections that `closeLAN` closes, and those that it keeps.
unfoldable pub accepted_on : Bool → List (ℕ × Bool) → List (ℕ × Bool)
accepted_on side [] = []
accepted_on side ((c, lan) ∷ cs) =
    let rest = accepted_on side cs in
    if (if lan then side else not side) then (c, lan) ∷ rest else rest

-- `closeLAN`: the tracker, and how many connections it closed.
unfoldable pub close_lan : Tracker → Tracker × ℕ
close_lan t = (
  record { conns = accepted_on false t.conns; closed = t.closed ++ ids (accepted_on true t.conns) },
  length (accepted_on true t.conns),
)

add_ip : ⦃t : V6Text⦄ → Option Addr → List Bytes → List Bytes
add_ip none ips = ips
add_ip (some a) ips = print_addr a ∷ ips

remote_of : ⦃t : V6Text⦄ → (ℕ → Option Addr) → List (ℕ × Bool) → List Bytes
unfolding add_ip
remote_of peer [] = []
remote_of peer ((c, lan) ∷ cs) = add_ip (peer c) (remote_of peer cs)

-- `remoteIPs`, where `peer` is `remoteAddrPort`.
unfoldable pub remote_ips : ⦃t : V6Text⦄ → (ℕ → Option Addr) → Tracker → List Bytes
unfolding remote_of
remote_ips peer t = remote_of peer t.conns

-- One tick of `dropConnsOnVPNLoss`: what it remembers of the VPN, and what it sees.
unfoldable pub watch_vpn : Bool × Tracker → Bool → Bool × Tracker
watch_vpn (was_connected, t) connected =
    (connected, if was_connected && not connected then (close_all t).0 else t)
