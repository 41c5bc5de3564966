-- ===== src/Service/Pinner/Calls.antt =====
-- Which ARP pins the pinner makes.
use cisco_socks_server.Prelude.{
  true, false, List, [], ◌∷◌, ◌++◌, Option, some, Bytes, ◌≡◌, ◌≢◌, refl, ◌⊎◌, inl, inr, arith, sym,
  subst, str_eq_iff, All, All-append, Bool-cases, Option-cases,
}
use cisco_socks_server.Net.Addr.{Addr, V6Text, parse_addr, print_addr, contains_addr}
use cisco_socks_server.Route.Arp.{ArpEntry, PinAction, pin_none, pin_adopt, pin_repin, decide_pin}
use cisco_socks_server.Route.Arp.Decide.{OnLan, decide_pin_repin_iff}
use cisco_socks_server.Service.State.{State}
use cisco_socks_server.Service.Pinner.{
  PinOps, PinCall, Pinning, pin_now, act, look_up, skipped, pin_client, pin_all, pin_clients,
}

module _ {W : Type 0} (ops : PinOps W) ⦃t : V6Text⦄ (state : State) where
  -- A pin that is worth making: of a client in the subnet that is not ourselves, with an address,
  -- on the LAN interface.
  pub record IsAllowed (c : PinCall) : Type 0 where
    pub in_lan : (a : Addr) × (parse_addr c.ip ≡ some a) × (contains_addr state.lan_subnet a ≡ true)
    pub not_self : c.ip ≢ print_addr state.lan_addr
    pub has_mac : c.mac ≢ []
    pub on_lan : c.iface ≡ state.lan_interface

  skipped-parts :
      (ip : Bytes)
      → skipped state ip ≡ false
      → ((a : Addr) × (parse_addr ip ≡ some a) × (contains_addr state.lan_subnet a ≡ true))
        × (ip ≢ print_addr state.lan_addr)
  unfolding skipped
  skipped-parts ip h = elim (Option-cases (parse_addr ip)) [
    | inl e ↦ absurd (ground (arith, e))
    | inr (a, e) ↦
        ((a, e, ground (arith, e)), ground (arith, e, str_eq_iff ip (print_addr state.lan_addr)))
  ]

  -- A pin is made only with a known address, for a client that does not resolve on the LAN.
  pub act-pins :
      (ip mac : Bytes) (found : Option ArpEntry) (s : Pinning W)
      → ((act ops state ip mac found (decide_pin found mac state.lan_interface) s).pins ≡ s.pins)
        ⊎ ((mac ≢ [])
            × (¬ OnLan found state.lan_interface)
            × ((act ops state ip mac found (decide_pin found mac state.lan_interface) s).pins
                ≡ s.pins ++ (record { ip = ip; mac = mac; iface = state.lan_interface } ∷ [])))
  act-pins ip mac found s =
      by_action (decide_pin found mac state.lan_interface)
        (decide_pin_repin_iff found mac state.lan_interface).0
    where
      by_action :
          (a : PinAction)
          → (a ≡ pin_repin → (mac ≢ []) × (¬ OnLan found state.lan_interface))
          → ((act ops state ip mac found a s).pins ≡ s.pins)
            ⊎ ((mac ≢ [])
                × (¬ OnLan found state.lan_interface)
                × ((act ops state ip mac found a s).pins
                    ≡ s.pins ++ (record { ip = ip; mac = mac; iface = state.lan_interface } ∷ [])))
      by_action pin_none h = unfold act in inl refl
      by_action pin_adopt h = unfold act in inl refl
      by_action pin_repin h = unfold act pin_now in inr ((h refl).0, (h refl).1, refl)

  -- A client that the kernel resolves on the LAN interface is never pinned, so that its frames in
  -- flight are not dropped.
  pub pin_client-OnLan :
      (ip mac : Bytes) (s : Pinning W)
      → OnLan (ops.lookup ip s.world).0 state.lan_interface
      → (pin_client ops state (ip, mac) s).pins ≡ s.pins
  unfolding pin_client
  pin_client-OnLan ip mac s on = elim (Bool-cases (skipped state ip)) [
    | inl skip ↦ rw skip
    | inr visit ↦ rw visit (elim (act-pins ip mac (ops.lookup ip s.world).0 (look_up ops ip s)) [
      | inl same ↦ same
      | inr (_, off, _) ↦ absurd (off on)
    ])
  ]

  pin_client-IsAllowed :
      (c : Bytes × Bytes) (s : Pinning W)
      → All IsAllowed s.pins
      → All IsAllowed (pin_client ops state c s).pins
  unfolding pin_client
  pin_client-IsAllowed (ip, mac) s h = elim (Bool-cases (skipped state ip)) [
    | inl skip ↦ subst (All IsAllowed) (sym (rw skip)) h
    | inr visit ↦
        let (lan, other) = skipped-parts ip visit in
        elim (act-pins ip mac (ops.lookup ip s.world).0 (look_up ops ip s)) [
          | inl same ↦ subst (All IsAllowed) (sym (rw visit same)) h
          | inr (known, _, one) ↦
              let call : PinCall = record { ip = ip; mac = mac; iface = state.lan_interface } in
              let added : (pin_client ops state (ip, mac) s).pins ≡ s.pins ++ (call ∷ []) =
                rw visit one in
              let allowed : IsAllowed call = record {
                in_lan = lan;
                not_self = other;
                has_mac = known;
                on_lan = refl;
              } in
              subst (All IsAllowed) (sym added)
                (All-append IsAllowed s.pins (call ∷ []) h (allowed, tt))
        ]
  ]

  pin_all-IsAllowed :
      (cs : List (Bytes × Bytes)) (s : Pinning W)
      → All IsAllowed s.pins
      → All IsAllowed (pin_all ops state cs s).pins
  unfolding pin_all
  pin_all-IsAllowed [] s h = h
  pin_all-IsAllowed (c ∷ cs) s h =
      pin_all-IsAllowed cs (pin_client ops state c s) (pin_client-IsAllowed c s h)

  -- Whatever the order of the clients and the answers of the kernel, every pin that a round adds
  -- is of a client in the LAN subnet that is not this host, with an address that is known, on the
  -- LAN interface.
  pub pin_clients-IsAllowed :
      (order : List (Bytes × Bytes) → List (Bytes × Bytes)) (s : Pinning W)
      → All IsAllowed s.pins
      → All IsAllowed (pin_clients ops order state s).pins
  unfolding pin_clients
  pin_clients-IsAllowed order s h = pin_all-IsAllowed _ s h
