-- ===== src/Service/Sniffer/Stale.antt =====
-- A frame that is seen with the `State` of the network before.
use cisco_socks_server.Prelude.{ℕ, false, [], ◌∷◌, ◌++◌, Bytes, is_empty, ◌≡◌, ◌∙◌, str_eq_refl}
use cisco_socks_server.Net.Addr.{Addr, V6Text, print_addr}
use cisco_socks_server.Service.State.{State}
use cisco_socks_server.Service.Clients.{reset_network, touch, lookup_client}
use cisco_socks_server.Service.Pinner.{PinOps, Pinning, skipped, pin_client}
use cisco_socks_server.Service.Pinner.Plan.{on_lan, pin_client-plan}
use cisco_socks_server.Service.Sniffer.{known_mac, observe_syn}
use cisco_socks_server.Service.Sniffer.Frame.{IsPeer, observe_syn-lookup}

module _ {W : Type 0} (ops : PinOps W) ⦃t : V6Text⦄ where
  abbrev pub registered_mac : Addr → Pinning W → Bytes
  registered_mac ip s = known_mac (lookup_client s.clients (print_addr ip))

  -- The registry is emptied for the new network, and then a frame is taken in with the old state.
  abbrev pub late_frame : State → Addr → Bytes → ℕ → Pinning W → Pinning W
  late_frame old ip mac now s =
      observe_syn ops old ip mac now (record s { clients = reset_network s.clients })

  late_frame-registered :
      (old : State) (ip : Addr) (mac : Bytes) (now : ℕ) (s : Pinning W)
      → IsPeer old ip
      → is_empty mac ≡ false
      → registered_mac ip (late_frame old ip mac now s) ≡ mac
  unfolding lookup_client touch
  late_frame-registered old ip mac now s peer known = rw (
    observe_syn-lookup ops old ip mac now (record s { clients = reset_network s.clients })
        (print_addr ip) peer,
    str_eq_refl (print_addr ip),
    known,
  )

  -- A frame that is taken in with the state of the old network, after the change of network has
  -- reset the registry, brings the sender's hardware address into the new network: if the new
  -- network has the address in its subnet, for another host than this one, and it does not resolve
  -- on the LAN yet, then the pinner's next visit pins the old network's hardware address there.
  pub late_frame_pinned :
      (old new : State) (ip : Addr) (mac : Bytes) (now : ℕ) (s : Pinning W)
      → IsPeer old ip
      → is_empty mac ≡ false
      → skipped new (print_addr ip) ≡ false
      → on_lan (ops.lookup (print_addr ip) (late_frame old ip mac now s).world).0 new.lan_interface
        ≡ false
      → let s' = late_frame old ip mac now s in
        (pin_client ops new (print_addr ip, registered_mac ip s') s').pins
        ≡ s'.pins ++ (record { ip = print_addr ip; mac = mac; iface = new.lan_interface } ∷ [])
  late_frame_pinned old new ip mac now s peer known inside unresolved =
      pin_client-plan ops new (print_addr ip) _ (late_frame old ip mac now s)
      ∙ rw (late_frame-registered old ip mac now s peer known, inside, known, unresolved)
