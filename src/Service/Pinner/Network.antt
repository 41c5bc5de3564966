-- ===== src/Service/Pinner/Network.antt =====
-- The pinner after a change of network, and what it learns from the kernel.
use cisco_socks_server.Prelude.{
  false, List, [], ◌∷◌, Option, some, Bytes, if◌then◌else◌, ◌≡◌, refl, ◌∙◌, inl, inr, if_elim,
  str_eq, All, Bool-cases, lookup, map_values, retain, lookup-insert,
}
use cisco_socks_server.Net.Addr.{V6Text}
use cisco_socks_server.Route.Arp.{ArpEntry, PinAction, pin_none, pin_adopt, pin_repin, same_mac}
use cisco_socks_server.Route.Arp.Decide.{decide_pin_adopt_iff}
use cisco_socks_server.Service.State.{State}
use cisco_socks_server.Service.Clients.{
  ClientEntry, Registry, reset_network, snapshot, set_mac, forget_mac,
}
use cisco_socks_server.Service.Clients.Registry.{IsCanonical, IsValid, set_mac-IsValid}
use cisco_socks_server.Service.Pinner.{
  PinOps, Pinning, act, look_up, pin_now, entry_mac, skipped, pin_client, pin_all, pin_clients,
}
use cisco_socks_server.Service.Pinner.Calls.{act-pins}

-- The map is visited in some order: the loop meets only what the map holds.
abbrev pub VisitsOnly : (List (Bytes × Bytes) → List (Bytes × Bytes)) → Type 1
VisitsOnly order =
    (l : List (Bytes × Bytes)) (P : Bytes × Bytes → Type 0) → All P l → All P (order l)

abbrev NoMac : Bytes × Bytes → Type 0
NoMac (ip, mac) = mac ≡ []

snapshot-forget_mac : (m : Registry) → All NoMac (snapshot (map_values forget_mac m))
unfolding snapshot map_values
snapshot-forget_mac [] = tt
snapshot-forget_mac ((ip, e) ∷ m) = (refl, snapshot-forget_mac m)

snapshot-reset_network : (r : Registry) → All NoMac (snapshot (reset_network r))
unfolding reset_network
snapshot-reset_network r = snapshot-forget_mac (retain (λ ip e. e.static) r)

module _ {W : Type 0} (ops : PinOps W) ⦃t : V6Text⦄ (state : State) where
  pin_client_no_mac : (ip : Bytes) (s : Pinning W) → (pin_client ops state (ip, []) s).pins ≡ s.pins
  unfolding pin_client
  pin_client_no_mac ip s = elim (Bool-cases (skipped state ip)) [
    | inl skip ↦ rw skip
    | inr visit ↦
        rw visit (elim (act-pins ops state ip [] (ops.lookup ip s.world).0 (look_up ops ip s)) [
          | inl same ↦ same
          | inr (known, _, _) ↦ absurd (known refl)
        ])
  ]

  pin_all-NoMac :
      (cs : List (Bytes × Bytes)) (s : Pinning W)
      → All NoMac cs
      → (pin_all ops state cs s).pins ≡ s.pins
  unfolding pin_all
  pin_all-NoMac [] s h = refl
  pin_all-NoMac ((ip, mac) ∷ cs) s h =
      rw h.0 (pin_all-NoMac cs (pin_client ops state (ip, []) s) h.1 ∙ pin_client_no_mac ip s)

  -- A round of the pinner that finds the registry as the reset on a change of network has left it
  -- pins nothing, in every state and visiting order. A client that is registered between the reset
  -- and the round is not covered.
  pub pin_clients-reset_network :
      (order : List (Bytes × Bytes) → List (Bytes × Bytes)) (s : Pinning W) (r : Registry)
      → VisitsOnly order
      → s.clients ≡ reset_network r
      → (pin_clients ops order state s).pins ≡ s.pins
  unfolding pin_clients
  pin_clients-reset_network order s r only reset =
      pin_all-NoMac _ s (only _ NoMac (rw reset (snapshot-reset_network r)))

  act_adopt :
      (ip mac : Bytes) (s : Pinning W) (e : ArpEntry) (c : ClientEntry) (j : Bytes)
      → lookup ip s.clients ≡ some c
      → lookup j (act ops state ip mac (some e) pin_adopt s).clients
        ≡ (if str_eq ip j then some (record c { mac = e.mac }) else lookup j s.clients)
  unfolding act set_mac
  act_adopt ip mac s e c j known =
      rw (known, set_mac) (lookup-insert ip j (record c { mac = e.mac }) s.clients)

  -- A client in the subnet that the kernel resolves on the LAN interface with another address is
  -- registered with that address, and no other client changes.
  pub pin_client_adopts :
      (ip mac : Bytes) (s : Pinning W) (e : ArpEntry) (c : ClientEntry) (j : Bytes)
      → skipped state ip ≡ false
      → (ops.lookup ip s.world).0 ≡ some e
      → e.iface ≡ state.lan_interface
      → same_mac e.mac mac ≡ false
      → lookup ip s.clients ≡ some c
      → lookup j (pin_client ops state (ip, mac) s).clients
        ≡ (if str_eq ip j then some (record c { mac = e.mac }) else lookup j s.clients)
  unfolding pin_client
  pin_client_adopts ip mac s e c j visit found on other known =
      rw
        (
          visit,
          found,
          (decide_pin_adopt_iff (some e) mac state.lan_interface).1 (e, refl, on, other),
        )
        (act_adopt ip mac (look_up ops ip s) e c j known)

  act-IsValid :
      (ip mac : Bytes) (found : Option ArpEntry) (a : PinAction) (s : Pinning W)
      → IsCanonical (entry_mac found)
      → IsValid s.clients
      → IsValid (act ops state ip mac found a s).clients
  unfolding act pin_now
  act-IsValid ip mac found pin_adopt s h v = set_mac-IsValid s.clients ip (entry_mac found) h v
  act-IsValid ip mac found pin_repin s h v = v
  act-IsValid ip mac found pin_none s h v = v

  pin_all-IsValid :
      (cs : List (Bytes × Bytes)) (s : Pinning W)
      → ((ip : Bytes) (w : W) → IsCanonical (entry_mac (ops.lookup ip w).0))
      → IsValid s.clients
      → IsValid (pin_all ops state cs s).clients
  unfolding pin_all pin_client
  pin_all-IsValid [] s h v = v
  pin_all-IsValid ((ip, mac) ∷ cs) s h v = pin_all-IsValid cs _ h (
      if_elim (λ p. IsValid p.clients) (skipped state ip) s _ (λ _. v)
        λ _. act-IsValid ip mac _ _ (look_up ops ip s) (h ip s.world) v)

  -- A round of the pinner keeps the registry well formed, as long as the kernel's entries are read
  -- in canonical form.
  pub pin_clients-IsValid :
      (order : List (Bytes × Bytes) → List (Bytes × Bytes)) (s : Pinning W)
      → ((ip : Bytes) (w : W) → IsCanonical (entry_mac (ops.lookup ip w).0))
      → IsValid s.clients
      → IsValid (pin_clients ops order state s).clients
  unfolding pin_clients
  pin_clients-IsValid order s h v = pin_all-IsValid _ s h v
