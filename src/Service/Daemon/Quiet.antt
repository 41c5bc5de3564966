-- ===== src/Service/Daemon/Quiet.antt =====
-- What a supervisor and a network that have not seen the VPN up leave alone.
use cisco_socks_server.Prelude.{
  ℕ, Bool, true, false, ◌&&◌, List, [], ◌∷◌, Option, none, some, Bytes, ◌≡◌, refl, ap, ◌∙◌, ◌⊎◌,
  inl, inr, arith, All, if_elim,
}
use cisco_socks_server.Net.Addr.{Addr, V6Text}
use cisco_socks_server.Service.State.{State, Options, discovery_enabled}
use cisco_socks_server.Service.Pinner.{PinOps, Pinning, look_up}
use cisco_socks_server.Service.Sniffer.{see, repin_stale, observe_syn, discover_client}
use cisco_socks_server.Service.Proxy.{greet, remote_addr}
use cisco_socks_server.Service.Supervisor.{Supervisor, Input, tick, shutdown}
use cisco_socks_server.Service.Supervisor.Quiet.{Marks, tick-flags, tick_quiet, shutdown-flags}
use cisco_socks_server.Service.Stages.{WasThere}

-- The VPN was up in one of the states, or in none.
abbrev pub WasUp : List State → Type 0
WasUp [] = ⊥
WasUp (st ∷ past) = (st.cisco_connected ≡ true) ⊎ WasUp past

abbrev pub NeverUp : List State → Type 0
NeverUp past = All (λ (st : State). st.cisco_connected ≡ false) past

pub WasUp-NeverUp : (past : List State) → WasUp past → NeverUp past → ⊥
WasUp-NeverUp [] up never = up
WasUp-NeverUp (st ∷ past) (inl up) never = cc (up, never.0)
WasUp-NeverUp (st ∷ past) (inr up) never = WasUp-NeverUp past up never.1

pub WasThere-down :
    (st : State) (past : List State) → WasThere st past → NeverUp past → st.cisco_connected ≡ false
WasThere-down st [] was never = elim was [ ]
WasThere-down st (s ∷ past) (inl same) never = cc (same, never.0)
WasThere-down st (s ∷ past) (inr was) never = WasThere-down st past was never.1

-- Who does not pin.
module _ {W : Type 0} (ops : PinOps W) ⦃t : V6Text⦄ where
  pub observe_syn-pins :
      (state : State) (ip : Addr) (mac : Bytes) (now : ℕ) (s : Pinning W)
      → state.cisco_connected ≡ false
      → (observe_syn ops state ip mac now s).pins ≡ s.pins
  unfolding observe_syn repin_stale see
  observe_syn-pins state ip mac now s down = rw down (ground arith)

  pub observe_syn-world_down :
      (state : State) (ip : Addr) (mac : Bytes) (now : ℕ) (s : Pinning W)
      → state.cisco_connected ≡ false
      → (observe_syn ops state ip mac now s).world ≡ s.world
  unfolding observe_syn repin_stale see
  observe_syn-world_down state ip mac now s down = rw down (ground arith)

  discover_client-pins :
      (state : State) (peer : Option Addr) (now : ℕ) (s : Pinning W)
      → (discover_client ops state peer now s).pins ≡ s.pins
  unfolding discover_client see look_up
  discover_client-pins state none now s = refl
  discover_client-pins state (some ip) now s = ground arith

  pub greet-pins :
      (opts : Options) (lan : Bool) (state : State) (peer : Option Addr) (now : ℕ) (s : Pinning W)
      → (greet ops opts lan state peer now s).pins ≡ s.pins
  unfolding greet
  greet-pins opts lan state peer now s =
      if_elim (λ (p : Pinning W). p.pins ≡ s.pins) (lan && discovery_enabled opts) _ s
        (λ _. discover_client-pins state (remote_addr peer) now s) (λ _. refl)

-- The supervisor has not closed `ciscoReady`, nor seen the VPN up, and no server has marked itself.
abbrev pub IsQuiet : Supervisor → Type 0
IsQuiet sv =
    (sv.shared.ready_closed ≡ false)
    × (sv.ready_notified ≡ false)
    × (sv.shared.status.cisco_connected ≡ false)
    × (sv.shared.status.proxy_started ≡ false)
    × (sv.shared.status.dns_started ≡ false)

pub tick-IsQuiet :
    (inp : Input) (sv : Supervisor)
    → IsQuiet sv
    → ((((tick inp sv).0.shared.ready_closed ≡ true)
        × ((tick inp sv).0.shared.status.cisco_connected ≡ true)))
      ⊎ IsQuiet (tick inp sv).0
tick-IsQuiet inp sv (shut, noted, down, proxy_off, dns_off) =
    let (proxy, dns, _) = tick-flags inp sv in
    elim (tick_quiet inp sv shut noted) [
      | inl up ↦ inl up
      | inr (closed, notified, still) ↦
          inr (closed, notified, still, proxy ∙ proxy_off, dns ∙ dns_off)
    ]

pub shutdown-IsQuiet : (sv : Supervisor) → IsQuiet sv → IsQuiet (shutdown sv)
shutdown-IsQuiet sv (shut, noted, down, proxy_off, dns_off) =
    let (same, still) = shutdown-flags sv in
    (
      ap (λ (m : Marks). m.closed) same ∙ shut,
      ap (λ (m : Marks). m.notified) same ∙ noted,
      still,
      ap (λ (m : Marks). m.proxy) same ∙ proxy_off,
      ap (λ (m : Marks). m.dns) same ∙ dns_off,
    )
