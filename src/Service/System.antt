-- ===== src/Service/System.antt =====
-- internal/service/service.go: the goroutines that `Start` runs, as steps on what they share. They
-- take turns in any order. A goroutine reads `State`, and the pinner its copy of the clients,
-- before it acts, so a step takes any state and any client: they may be out of date.
pub mod Calls
pub mod Safety
use cisco_socks_server.Prelude.{ℕ, Bool, false, List, [], Option, some, Bytes, ◌≡◌}
use cisco_socks_server.Net.Addr.{Addr, v4, V6Text}
use cisco_socks_server.Route.Syn.{parse_syn_line}
use cisco_socks_server.Route.Commands.{Args, lookup_entry, pin}
use cisco_socks_server.Shell.{Ran}
use cisco_socks_server.Service.State.{State, LanClient, zero_state}
use cisco_socks_server.Service.Clients.{
  Registry, new_client_registry, expire, discovered_client_ttl,
}
use cisco_socks_server.Service.Pinner.{PinOps, PinCall, Pinning, pin_client}
use cisco_socks_server.Service.Sniffer.{observe_syn, discover_client}
use cisco_socks_server.Service.Supervisor.{
  Shared, Supervisor, Input, start, tick, shutdown, set_status,
}
use cisco_socks_server.Service.Proxy.{set_proxy}
use cisco_socks_server.Service.Dns.{set_dns}
use cisco_socks_server.Service.Rebind.{take_check}

-- The supervisor, with what it shares, the world of the ARP commands, and the calls of `arp.pin`.
pub record System (W : Type 0) : Type 0 where
  pub sup : Supervisor
  pub world : W
  pub pins : List PinCall

-- The ARP operations that `New` gives the service: `route.LookupARP` and `route.Pin`.
abbrev pub arp_ops : {W : Type 0} → (Args → W → Ran × W) → PinOps W
arp_ops run = record { lookup = lookup_entry run; pin = pin run }

-- `New`: the state that is shared at the start.
unfoldable pub new_service : List LanClient → Shared
new_service lan_clients = record {
  status = zero_state;
  clients = new_client_registry lan_clients;
  ready_closed = false;
  panicked = false;
  lan_check = false;
}

abbrev pub put_clients : Registry → Supervisor → Supervisor
put_clients r sv = let shared = sv.shared in record sv { shared = record shared { clients = r } }

module _ {W : Type 0} where
  abbrev pub boot : List LanClient → W → System W
  boot lan_clients w = record { sup = start (new_service lan_clients); world = w; pins = [] }

  -- What the pinner and the sniffer see of the system, and what they leave in it.
  abbrev pub view : System W → Pinning W
  view s = record { clients = s.sup.shared.clients; world = s.world; pins = s.pins }

  abbrev pub put : Pinning W → System W → System W
  put p s = record { sup = put_clients p.clients s.sup; world = p.world; pins = p.pins }

  -- One turn of a goroutine.
  pub data Step (ops : PinOps W) ⦃t : V6Text⦄ : System W → System W → Type 0 where
    ticked : (s : System W) (inp : Input) → Step ops s (record s { sup = (tick inp s.sup).0 })
    exited : (s : System W) → Step ops s (record s { sup = shutdown s.sup })
    marked_proxy :
        (s : System W) (up : Bool) → Step ops s (record s { sup = set_status (set_proxy up) s.sup })
    marked_dns :
        (s : System W) (up : Bool) → Step ops s (record s { sup = set_status (set_dns up) s.sup })
    checked : (s : System W) → Step ops s (record s { sup = take_check s.sup })
    expired :
        (s : System W) (now : ℕ) (live : Bytes → Bool)
        → Step ops s (record s {
          sup = put_clients (expire s.sup.shared.clients now discovered_client_ttl live).0 s.sup;
        })
    visited :
        (s : System W) (state : State) (client : Bytes × Bytes)
        → Step ops s (put (pin_client ops state client (view s)) s)
    sniffed :
        (s : System W) (state : State) (line : Bytes) (ip : ℕ) (mac : Bytes) (now : ℕ)
        → parse_syn_line line ≡ some (ip, mac)
        → Step ops s (put (observe_syn ops state (v4 ip) mac now (view s)) s)
    discovered :
        (s : System W) (state : State) (peer : Option Addr) (now : ℕ)
        → Step ops s (put (discover_client ops state peer now (view s)) s)

  pub data Reach (ops : PinOps W) ⦃t : V6Text⦄ (s : System W) : System W → Type 0 where
    here : Reach ops s s
    next : {u v : System W} → Reach ops s u → Step ops u v → Reach ops s v
