-- ===== src/Service/System/Calls.antt =====
-- Each turn of a goroutine changes the registry by one call at most.
use cisco_socks_server.Prelude.{
  ℕ, not, ◌||◌, if◌then◌else◌, Option, none, some, Bytes, ◌≡◌, refl, ap, str_eq, ◌⊎◌, inl, inr,
  arith, if_elim, Bool-cases, is_empty,
}
use cisco_socks_server.Net.Addr.{Addr, V6Text, print_addr, contains_addr, addr_eq}
use cisco_socks_server.Route.Arp.{
  ArpEntry, PinAction, pin_none, pin_adopt, pin_repin, canonical_mac,
}
use cisco_socks_server.Route.Lan.{Detected}
use cisco_socks_server.Cisco.{
  VpnState, connected, disconnected, reconnecting, unknown, ConnectResult, acquired, connect_failed,
  connect_ok,
}
use cisco_socks_server.Service.State.{State, lan_snapshot}
use cisco_socks_server.Service.Clients.{Registry, seen, lookup_client, needs_refresh}
use cisco_socks_server.Service.Clients.Registry.{
  Call, sees, sets_mac, expires, resets, after, IsCanonical, IsValid, IsStatic, after-IsValid,
  history-IsStatic, history-IsValid,
}
use cisco_socks_server.Service.Clients.Registry
use cisco_socks_server.Service.Pinner.{
  PinOps, Pinning, entry_mac, pin_now, look_up, act, skipped, pin_client,
}
use cisco_socks_server.Service.Sniffer.{
  known_mac, see, repin_stale, lan_mac, observe_syn, discover_client,
}
use cisco_socks_server.Service.Supervisor.{
  Supervisor, Input, tick, on_state, connect, connect_with, await_reconnect, set_connected,
  when_connected, disable_pf, notify_ready, detect_lan,
}
use cisco_socks_server.Service.Supervisor.Network.{detect_lan_outcome}

-- The registry is left as it is, or changed by one call.
abbrev pub AtMostOne : Registry → Registry → Type 0
AtMostOne r r' = (r' ≡ r) ⊎ ((c : Call) × Registry.IsSound c × (r' ≡ after r c))

connect_with-clients :
    (inp : Input) (r : ConnectResult) (sv : Supervisor)
    → (connect_with inp r sv).0.shared.clients ≡ sv.shared.clients
unfolding connect_with set_connected
connect_with-clients inp acquired sv = refl
connect_with-clients inp connect_failed sv = ground arith
connect_with-clients inp connect_ok sv = refl

on_state-clients :
    (inp : Input) (st : Option VpnState) (sv : Supervisor)
    → (on_state inp st sv).0.shared.clients ≡ sv.shared.clients
unfolding on_state set_connected await_reconnect connect
on_state-clients inp none sv = refl
on_state-clients inp (some connected) sv = refl
on_state-clients inp (some reconnecting) sv = ground arith
on_state-clients inp (some disconnected) sv = connect_with-clients inp inp.connects _
on_state-clients inp (some unknown) sv = connect_with-clients inp inp.connects _

when_connected-clients :
    (inp : Input) (sv : Supervisor) → (when_connected inp sv).shared.clients ≡ sv.shared.clients
unfolding when_connected notify_ready disable_pf
when_connected-clients inp sv = ground arith

pub detect_lan-AtMostOne :
    (d : Detected) (sv : Supervisor) → AtMostOne sv.shared.clients (detect_lan d sv).shared.clients
unfolding lan_snapshot
detect_lan-AtMostOne d sv = elim (detect_lan_outcome sv d) [
  | inl (_, same) ↦ inl same
  | inr (_, changed, _) ↦ elim (Bool-cases (is_empty sv.shared.status.lan_interface)) [
    | inl first ↦ inl (ground (arith, changed))
    | inr other ↦ inr (resets, tt, ground (arith, changed))
  ]
]

pub tick-clients :
    (inp : Input) (sv : Supervisor)
    → (tick inp sv).0.shared.clients ≡ (detect_lan inp.detected sv).shared.clients
unfolding tick
tick-clients inp sv =
    rw (
      when_connected-clients inp _,
      on_state-clients inp inp.vpn_state (detect_lan inp.detected sv),
    )

module _ {W : Type 0} (ops : PinOps W) ⦃t : V6Text⦄ where
  -- The kernel's entries are read in canonical form, as `parse_arp_entry` gives them.
  abbrev pub IsCanonicalTable : Type 0
  IsCanonicalTable = (ip : Bytes) (w : W) → IsCanonical (entry_mac (ops.lookup ip w).0)

  act-AtMostOne :
      (state : State) (ip mac : Bytes) (found : Option ArpEntry) (a : PinAction) (s : Pinning W)
      → IsCanonical (entry_mac found)
      → AtMostOne s.clients (act ops state ip mac found a s).clients
  unfolding act pin_now
  act-AtMostOne state ip mac found pin_adopt s h = inr (sets_mac ip (entry_mac found), h, refl)
  act-AtMostOne state ip mac found pin_repin s h = inl refl
  act-AtMostOne state ip mac found pin_none s h = inl refl

  pub pin_client-AtMostOne :
      (state : State) (c : Bytes × Bytes) (s : Pinning W)
      → IsCanonicalTable
      → AtMostOne s.clients (pin_client ops state c s).clients
  unfolding pin_client look_up
  pin_client-AtMostOne state (ip, mac) s h =
      if_elim (λ p. AtMostOne s.clients p.clients) (skipped state ip) s _ (λ _. inl refl)
        λ _. act-AtMostOne state ip mac _ _ (look_up ops ip s) (h ip s.world)

  repin_stale-clients :
      (state : State) (ip mac : Bytes) (s : Pinning W)
      → (repin_stale ops state ip mac s).clients ≡ s.clients
  unfolding repin_stale pin_now look_up
  repin_stale-clients state ip mac s = ground arith

  pub observe_syn-AtMostOne :
      (state : State) (ip : Addr) (mac : Bytes) (now : ℕ) (s : Pinning W)
      → canonical_mac mac ≡ some mac
      → AtMostOne s.clients (observe_syn ops state ip mac now s).clients
  unfolding observe_syn see
  observe_syn-AtMostOne state ip mac now s h =
      let key = print_addr ip in
      let stale =
        if str_eq mac (known_mac (lookup_client s.clients key))
        then s
        else repin_stale ops state key mac s in
      if_elim (λ p. AtMostOne s.clients p.clients)
        (is_empty state.lan_interface
          || not (contains_addr state.lan_subnet ip)
          || addr_eq ip state.lan_addr)
        s (see key mac now stale) (λ _. inl refl)
        λ _. inr (
          sees key mac now,
          inr h,
          ap (λ r. (seen r key mac now).0)
              (if_elim (λ p. p.clients ≡ s.clients)
                (str_eq mac (known_mac (lookup_client s.clients key))) s
                (repin_stale ops state key mac s) (λ _. refl)
                λ _. repin_stale-clients state key mac s),
        )

  lan_mac-IsCanonical :
      (state : State) (found : Option ArpEntry)
      → IsCanonical (entry_mac found)
      → IsCanonical (lan_mac state found)
  unfolding lan_mac
  lan_mac-IsCanonical state none h = inl refl
  lan_mac-IsCanonical state (some e) h =
      if_elim IsCanonical (str_eq e.iface state.lan_interface) _ _ (λ _. h) (λ _. inl refl)

  pub discover_client-AtMostOne :
      (state : State) (peer : Option Addr) (now : ℕ) (s : Pinning W)
      → IsCanonicalTable
      → AtMostOne s.clients (discover_client ops state peer now s).clients
  unfolding discover_client see look_up
  discover_client-AtMostOne state none now s h = inl refl
  discover_client-AtMostOne state (some ip) now s h =
      let key = print_addr ip in
      let found = see key (lan_mac state (ops.lookup key s.world).0) now (look_up ops key s) in
      let known = not (needs_refresh (lookup_client s.clients key) now) in
      if_elim (λ p. AtMostOne s.clients p.clients)
        (is_empty state.lan_interface || not (contains_addr state.lan_subnet ip)) s
        (if known then s else found) (λ _. inl refl)
        λ _.
          if_elim (λ p. AtMostOne s.clients p.clients) known s found (λ _. inl refl)
            λ _. inr (
              sees key (lan_mac state (ops.lookup key s.world).0) now,
              lan_mac-IsCanonical state (ops.lookup key s.world).0 (h key s.world),
              refl,
            )
