-- ===== src/Service/Pinner/Plan.antt =====
-- A round of the pinner against its plan: the pins that the kernel's table calls for before it.
use cisco_socks_server.Prelude.{
  Bool, false, not, ◌&&◌, List, [], ◌∷◌, ◌++◌, Option, none, some, Bytes, is_empty, str_eq,
  if◌then◌else◌, ◌≡◌, arith, append-nil, lookup,
}
use mathlib.Core.List.{Permᴰ}
use mathlib.Core.List.Permᴰ
use cisco_socks_server.Net.Addr.{V6Text}
use cisco_socks_server.Route.Arp.{ArpEntry, decide_pin}
use cisco_socks_server.Service.State.{State}
use cisco_socks_server.Service.Pinner.{
  PinOps, PinCall, Pinning, pin_now, act, look_up, skipped, pin_client,
}

-- The ARP commands mind their own address: reading changes nothing, and a pin of one address
-- leaves the entries of the others alone.
pub record IsSteady {W : Type 0} (ops : PinOps W) : Type 0 where
  pub read_only : (ip : Bytes) (w : W) → (ops.lookup ip w).1 ≡ w
  pub apart :
      (ip mac iface j : Bytes) (w : W)
      → str_eq ip j ≡ false
      → (ops.lookup j (ops.pin ip mac iface w).1).0 ≡ (ops.lookup j w).0

-- The client resolves on the LAN interface.
abbrev pub on_lan : Option ArpEntry → Bytes → Bool
on_lan none iface = false
on_lan (some e) iface = str_eq e.iface iface

module _ {W : Type 0} (ops : PinOps W) ⦃t : V6Text⦄ (state : State) where
  -- A client is due for a pin: it is not left alone, its address is known, and it does not resolve
  -- on the LAN.
  abbrev pub due : W → Bytes → Bytes → Bool
  due w ip mac =
      not (skipped state ip)
      && not (is_empty mac)
      && not (on_lan (ops.lookup ip w).0 state.lan_interface)

  abbrev pub pins_for : W → Bytes → Bytes → List PinCall
  pins_for w ip mac =
      if due w ip mac then record { ip = ip; mac = mac; iface = state.lan_interface } ∷ [] else []

  -- The pins of the clients that are due.
  pub plan : W → List (Bytes × Bytes) → List PinCall
  plan w [] = []
  plan w ((ip, mac) ∷ cs) = pins_for w ip mac ++ plan w cs

  act-plan :
      (ip mac : Bytes) (found : Option ArpEntry) (s : Pinning W)
      → (act ops state ip mac found (decide_pin found mac state.lan_interface) s).pins
        ≡ s.pins
          ++ (if not (is_empty mac) && not (on_lan found state.lan_interface)
              then record { ip = ip; mac = mac; iface = state.lan_interface } ∷ []
              else [])
  unfolding act decide_pin pin_now
  act-plan ip mac none s = ground (arith, append-nil s.pins)
  act-plan ip mac (some e) s = ground (arith, append-nil s.pins)

  pub pin_client-plan :
      (ip mac : Bytes) (s : Pinning W)
      → (pin_client ops state (ip, mac) s).pins ≡ s.pins ++ pins_for s.world ip mac
  unfolding pin_client look_up
  pin_client-plan ip mac s =
      ground
        (arith, append-nil s.pins, act-plan ip mac (ops.lookup ip s.world).0 (look_up ops ip s))
