-- ===== src/Service/Pinner.antt =====
-- internal/service/service.go: `startPinner` and `pinClients`. The two ARP commands act on a world
-- of their own, which is a parameter; the calls of `arp.pin` are recorded in their order.
pub mod Calls
pub mod Self
pub mod Network
pub mod Plan
pub mod Fresh
pub mod Rounds
use cisco_socks_server.Prelude.{
  ℕ, Bool, true, false, not, ◌||◌, List, [], ◌∷◌, ◌++◌, Option, none, some, Bytes, ltb, leb,
  if◌then◌else◌, is_empty, str_eq,
}
use cisco_socks_server.Net.Addr.{Addr, V6Text, parse_addr, print_addr, contains_addr}
use cisco_socks_server.Route.Arp.{ArpEntry, PinAction, pin_none, pin_adopt, pin_repin, decide_pin}
use cisco_socks_server.Service.State.{State, time_sub, minute}
use cisco_socks_server.Service.Clients.{Registry, set_mac, snapshot, expire, discovered_client_ttl}

-- `clientExpireInterval`
abbrev pub client_expire_interval : ℕ
client_expire_interval = minute

-- `pinOps`: `lookup` reads the kernel's table, `pin` tells whether it succeeded.
pub record PinOps (W : Type 0) : Type 0 where
  pub lookup : Bytes → W → Option ArpEntry × W
  pub pin : Bytes → Bytes → Bytes → W → Bool × W

-- The arguments of one call of `arp.pin`.
pub record PinCall : Type 0 where
  pub ip : Bytes
  pub mac : Bytes
  pub iface : Bytes

-- What a round of the pinner works on.
pub record Pinning (W : Type 0) : Type 0 where
  pub clients : Registry
  pub world : W
  pub pins : List PinCall

abbrev pub entry_mac : Option ArpEntry → Bytes
entry_mac none = []
entry_mac (some e) = e.mac

module _ ⦃t : V6Text⦄ where
  in_subnet : State → Option Addr → Bool
  in_subnet state none = false
  in_subnet state (some addr) = contains_addr state.lan_subnet addr

  -- The clients that the pinner leaves alone: those outside the subnet and our own address.
  unfoldable pub skipped : State → Bytes → Bool
  unfolding in_subnet
  skipped state ip = not (in_subnet state (parse_addr ip)) || str_eq ip (print_addr state.lan_addr)

module _ {W : Type 0} (ops : PinOps W) where
  -- A call of `arp.pin`.
  unfoldable pub pin_now : Bytes → Bytes → Bytes → Pinning W → Pinning W
  pin_now ip mac iface s = record s {
    world = (ops.pin ip mac iface s.world).1;
    pins = s.pins ++ (record { ip = ip; mac = mac; iface = iface } ∷ []);
  }

  -- A call of `arp.lookup` and what comes after it.
  unfoldable pub look_up : Bytes → Pinning W → Pinning W
  look_up ip s = record s { world = (ops.lookup ip s.world).1 }

  -- The switch on `route.DecidePin`.
  unfoldable pub act : State → Bytes → Bytes → Option ArpEntry → PinAction → Pinning W → Pinning W
  act state ip mac found pin_adopt s = record s { clients = set_mac s.clients ip (entry_mac found) }
  act state ip mac found pin_repin s = pin_now ip mac state.lan_interface s
  act state ip mac found pin_none s = s

  module _ ⦃t : V6Text⦄ where
    -- One round of the loop of `pinClients`.
    unfoldable pub pin_client : State → Bytes × Bytes → Pinning W → Pinning W
    unfolding look_up
    pin_client state (ip, mac) s =
        let found = (ops.lookup ip s.world).0 in
        if skipped state ip
        then s
        else act state ip mac found (decide_pin found mac state.lan_interface) (look_up ip s)

    -- The loop of `pinClients`, over the clients in the order in which they are visited.
    unfoldable pub pin_all : State → List (Bytes × Bytes) → Pinning W → Pinning W
    pin_all state [] s = s
    pin_all state (c ∷ cs) s = pin_all state cs (pin_client state c s)

    -- `pinClients`; the order in which Go visits the map is the argument `order`.
    unfoldable pub pin_clients :
        (List (Bytes × Bytes) → List (Bytes × Bytes)) → State → Pinning W → Pinning W
    pin_clients order state s = pin_all state (order (snapshot s.clients)) s

    -- The expiry of one round of `startPinner`; the first part is the time of the last one.
    unfoldable pub expire_round : ℕ → (Bytes → Bool) → ℕ × Pinning W → ℕ × Pinning W
    expire_round now live (last_expire, s) =
        if leb client_expire_interval (time_sub now last_expire)
        then (now, record s { clients = (expire s.clients now discovered_client_ttl live).0 })
        else (last_expire, s)

    -- One round of the loop of `startPinner`, with the state that it reads behind the expiry.
    unfoldable pub pinner_round :
        (List (Bytes × Bytes) → List (Bytes × Bytes))
        → ℕ
        → (Bytes → Bool)
        → State
        → ℕ × Pinning W
        → ℕ × Pinning W
    pinner_round order now live state (last_expire, s) =
        let (last, s') = expire_round now live (last_expire, s) in
        if not state.cisco_connected || is_empty state.lan_interface
        then (last, s')
        else (last, pin_clients order state s')
