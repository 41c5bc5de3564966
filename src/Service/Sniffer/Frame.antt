-- ===== src/Service/Sniffer/Frame.antt =====
-- What a frame from a client does to the registry, and why its address lasts.
use cisco_socks_server.Prelude.{
  ℕ, true, false, [], ◌∷◌, Option, none, ◌∙◌, some, Bytes, if◌then◌else◌, is_empty, ◌≡◌, ◌≢◌, refl,
  arith, str_eq, str_eq_iff, str_eq_refl, inl, inr, Bool-cases, if_elim, lookup, lookup-insert,
}
use cisco_socks_server.Net.Addr.{Addr, V6Text, print_addr, contains_addr, addr_eq}
use cisco_socks_server.Strings.{split, join}
use cisco_socks_server.Net.Mac.{parse_mac}
use cisco_socks_server.Route.Arp.{restore_zero, ArpEntry, decide_pin, canonical_mac}
use cisco_socks_server.Route.Arp.Mac.{same_mac_iff}
use cisco_socks_server.Service.State.{State}
use cisco_socks_server.Service.Clients.{ClientEntry, seen, touch, or_new, lookup_client}
use cisco_socks_server.Service.Pinner.{PinOps, Pinning, pin_now, look_up, act, skipped, pin_client}
use cisco_socks_server.Service.Sniffer.{see, agrees, known_mac, repin_stale, observe_syn}

-- The sender is in the LAN subnet, and is not this host.
abbrev pub IsPeer : State → Addr → Type 0
IsPeer state ip =
    (is_empty state.lan_interface ≡ false)
    × (contains_addr state.lan_subnet ip ≡ true)
    × (addr_eq ip state.lan_addr ≡ false)

none-some : {A : Type 0} {a : A} → none ≡ some a → ⊥
none-some h = ground (arith, h)

empty-not-canonical : canonical_mac [] ≡ some [] → ⊥
unfolding canonical_mac parse_mac split join restore_zero
empty-not-canonical h = absurd (none-some h)

module _ {W : Type 0} (ops : PinOps W) where
  repin_stale-clients :
      (state : State) (ip mac : Bytes) (s : Pinning W)
      → (repin_stale ops state ip mac s).clients ≡ s.clients
  unfolding repin_stale pin_now look_up
  repin_stale-clients state ip mac s = ground arith

  module _ ⦃t : V6Text⦄ where
    -- A SYN of a peer registers its sender with the frame's address and the time, and no other
    -- client changes.
    pub observe_syn-lookup :
        (state : State) (ip : Addr) (mac : Bytes) (now : ℕ) (s : Pinning W) (j : Bytes)
        → IsPeer state ip
        → lookup j (observe_syn ops state ip mac now s).clients ≡ (
            if str_eq (print_addr ip) j
            then some (touch mac now (or_new (lookup (print_addr ip) s.clients)))
            else lookup j s.clients)
    unfolding observe_syn see seen
    observe_syn-lookup state ip mac now s j (has, inside, other) =
        rw (has, inside, other, unchanged) (lookup-insert (print_addr ip) j _ s.clients)
      where
        unchanged :
            (if str_eq mac (known_mac (lookup_client s.clients (print_addr ip)))
              then s
              else repin_stale ops state (print_addr ip) mac s).clients
            ≡ s.clients
        unchanged =
            if_elim (λ (p : Pinning W). p.clients ≡ s.clients) _ s _ (λ _. refl)
              λ _. repin_stale-clients state (print_addr ip) mac s

-- What the ARP commands do: reading changes nothing, and a pin that succeeds is what is read next.
pub record IsKernel {W : Type 0} (ops : PinOps W) : Type 0 where
  pub read_only : (ip : Bytes) (w : W) → (ops.lookup ip w).1 ≡ w
  pub pin_sets :
      (ip mac iface : Bytes) (w : W)
      → (ops.pin ip mac iface w).0 ≡ true
      → (ops.lookup ip (ops.pin ip mac iface w).1).0 ≡ some (record { mac = mac; iface = iface })

module _ {W : Type 0} (ops : PinOps W) where
  repin_stale-world :
      (state : State) (ip mac : Bytes) (s : Pinning W) (e : ArpEntry)
      → IsKernel ops
      → state.cisco_connected ≡ true
      → (ops.lookup ip s.world).0 ≡ some e
      → e.iface ≡ state.lan_interface
      → e.mac ≢ mac
      → (repin_stale ops state ip mac s).world ≡ (ops.pin ip mac state.lan_interface s.world).1
  unfolding repin_stale pin_now look_up agrees
  repin_stale-world state ip mac s e kernel up found on stale = ground (
    arith,
    up,
    found,
    str_eq_iff e.iface state.lan_interface,
    str_eq_iff e.mac mac,
    kernel.read_only ip s.world,
  )

  module _ ⦃t : V6Text⦄ where
    observe_syn-world :
        (state : State) (ip : Addr) (mac : Bytes) (now : ℕ) (s : Pinning W)
        → IsPeer state ip
        → mac ≢ known_mac (lookup_client s.clients (print_addr ip))
        → (observe_syn ops state ip mac now s).world
          ≡ (repin_stale ops state (print_addr ip) mac s).world
    unfolding observe_syn see
    observe_syn-world state ip mac now s (has, inside, other) new =
        let differs : str_eq mac (known_mac (lookup_client s.clients (print_addr ip))) ≡ false =
          ground (arith, str_eq_iff mac (known_mac (lookup_client s.clients (print_addr ip)))) in
        rw (has, inside, other, differs)

    pin_client_agreed :
        (state : State) (ip mac : Bytes) (s : Pinning W)
        → canonical_mac mac ≡ some mac
        → (ops.lookup ip s.world).0 ≡ some (record { mac = mac; iface = state.lan_interface })
        → ((pin_client ops state (ip, mac) s).clients ≡ s.clients)
          × ((pin_client ops state (ip, mac) s).pins ≡ s.pins)
    unfolding pin_client act look_up decide_pin
    pin_client_agreed state ip mac s ok found =
        let same = (same_mac_iff mac mac).1 (mac, ok, ok) in
        elim (Bool-cases (skipped state ip)) [
          | inl skip ↦ (rw skip, rw skip)
          | inr visit ↦ (
            rw (visit, found, str_eq_refl state.lan_interface, same),
            rw (visit, found, str_eq_refl state.lan_interface, same),
          )
        ]

    touched :
        (mac : Bytes) (now : ℕ) (o : Option ClientEntry)
        → canonical_mac mac ≡ some mac
        → ((touch mac now (or_new o)).mac ≡ mac) × ((touch mac now (or_new o)).last_seen ≡ now)
    unfolding touch
    touched [] now o ok = absurd (empty-not-canonical ok)
    touched (b ∷ s) now o ok = (refl, refl)

    -- The frame wins: when a SYN brings another address than the registry and than the kernel's
    -- entry on the LAN, and the pin of it succeeds, then the sender is registered with the frame's
    -- address and the time, and a visit of the pinner to it as it is registered neither takes the
    -- stale address back from the kernel nor makes a further pin.
    pub observe_syn_wins :
        (state : State) (ip : Addr) (mac : Bytes) (now : ℕ) (s : Pinning W) (e : ArpEntry)
        → IsKernel ops
        → IsPeer state ip
        → state.cisco_connected ≡ true
        → canonical_mac mac ≡ some mac
        → mac ≢ known_mac (lookup_client s.clients (print_addr ip))
        → (ops.lookup (print_addr ip) s.world).0 ≡ some e
        → e.iface ≡ state.lan_interface
        → e.mac ≢ mac
        → (ops.pin (print_addr ip) mac state.lan_interface s.world).0 ≡ true
        → let s' = observe_syn ops state ip mac now s in
          (c : ClientEntry) × (lookup (print_addr ip) s'.clients ≡ some c)
          × (c.mac ≡ mac)
          × (c.last_seen ≡ now)
          × ((pin_client ops state (print_addr ip, c.mac) s').clients ≡ s'.clients)
          × ((pin_client ops state (print_addr ip, c.mac) s').pins ≡ s'.pins)
    observe_syn_wins state ip mac now s e kernel peer up ok new found on stale pinned =
        let s' = observe_syn ops state ip mac now s in
        let c = touch mac now (or_new (lookup (print_addr ip) s.clients)) in
        let (same, at) = touched mac now (lookup (print_addr ip) s.clients) ok in
        let here : lookup (print_addr ip) s'.clients ≡ some c =
          observe_syn-lookup ops state ip mac now s (print_addr ip) peer
          ∙ (rw (str_eq_refl (print_addr ip)) refl) in
        let (kept, quiet) = pin_client_agreed state (print_addr ip) mac s' ok (
          rw
            (
              observe_syn-world state ip mac now s peer new,
              repin_stale-world state (print_addr ip) mac s e kernel up found on stale,
            )
            (kernel.pin_sets (print_addr ip) mac state.lan_interface s.world pinned)) in
        (c, here, same, at, rw same kept, rw same quiet)
