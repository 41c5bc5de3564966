-- ===== src/Service/Daemon/Idle.antt =====
-- internal/service/service.go: the goroutines until the VPN has been up.
use cisco_socks_server.Prelude.{ℕ, Bytes, true, false, [], ◌≡◌, refl, subst, ap, ◌∙◌, ◌⊎◌, inl, inr}
use cisco_socks_server.Net.Addr.{Addr, v4, V6Text}
use cisco_socks_server.Service.State.{State, Options, LanSnapshot}
use cisco_socks_server.Service.Pinner.{PinOps}
use cisco_socks_server.Service.Sniffer.{observe_syn}
use cisco_socks_server.Service.System.{new_service}
use cisco_socks_server.Service.Conns.Drop.{remove-empty}
use cisco_socks_server.Service.Supervisor.Quiet.{Marks, tick-flags, shutdown-flags}
use cisco_socks_server.Service.Stages.{
  Stage, waiting, running, stopped, Group, ProxyStage, proxy_waiting, serving, proxy_stopped,
  Daemon, WasThere, pinning, launch,
}
use cisco_socks_server.Service.Daemon.{
  Step, Reach, here, next, cancels, ticked, exits, opens, declines, ends_group, closes_proxy,
  accepts, accepts_lan, stops_accepting, closes, greets, watches, stops_watching, reads, binds,
  checks, retried, ends_serving, opens_dns, closes_dns, opens_pinner, closes_pinner, expires,
  visits, sniffs, closes_sniffer,
}
use cisco_socks_server.Service.Daemon.Quiet.{
  WasUp, NeverUp, WasUp-NeverUp, WasThere-down, observe_syn-pins, observe_syn-world_down,
  greet-pins, IsQuiet, tick-IsQuiet, shutdown-IsQuiet,
}

abbrev NotServing : ProxyStage → Type 0
NotServing (serving g) = ⊥
NotServing proxy_waiting = Unit
NotServing proxy_stopped = Unit

abbrev NotRunning : Stage → Type 0
NotRunning waiting = Unit
NotRunning running = ⊥
NotRunning stopped = Unit

-- What holds until the VPN is up.
abbrev IsWaiting : {W : Type 0} → Daemon W → Type 0
IsWaiting d =
    IsQuiet d.sup
    × NeverUp d.past
    × (NotServing d.proxy × NotRunning d.dns × NotRunning d.pinner)
    × (d.listener.conns.conns ≡ [])
    × (d.pins ≡ [])

-- `ciscoReady` is closed since the VPN was up.
abbrev IsReady : {W : Type 0} → Daemon W → Type 0
IsReady d = (d.sup.shared.ready_closed ≡ true) × WasUp d.past

module _ {W : Type 0} (ops : PinOps W) ⦃t : V6Text⦄ (opts : Options)
    (origin : ℕ → LanSnapshot) where
  Step-IsReady : {d e : Daemon W} → Step ops opts origin d e → IsReady d → IsReady e
  Step-IsReady (cancels d) h = h
  Step-IsReady (ticked d inp up) (ready, was) = ((tick-flags inp d.sup).2 ready, inr was)
  Step-IsReady (exits d up done) (ready, was) =
      (ap (λ (m : Marks). m.closed) (shutdown-flags d.sup).0 ∙ ready, inr was)
  Step-IsReady (opens d p closed) (ready, was) = (ready, inr was)
  Step-IsReady (declines d p woken) (ready, was) = (ready, inr was)
  Step-IsReady (ends_group d g p why) h = h
  Step-IsReady (closes_proxy d g p ended) (ready, was) = (ready, inr was)
  Step-IsReady (accepts d g c p up) h = h
  Step-IsReady (accepts_lan d g c p bound) h = h
  Step-IsReady (stops_accepting d g a err p now over) h = h
  Step-IsReady (closes d c) h = h
  Step-IsReady (greets d lan state peer now there) h = h
  Step-IsReady (watches d g p up) h = h
  Step-IsReady (stops_watching d g p done) h = h
  Step-IsReady (reads d g p at) h = h
  Step-IsReady (binds d g want succeeds p at) h = h
  Step-IsReady (checks d g want p at token) h = h
  Step-IsReady (retried d g want p at due) h = h
  Step-IsReady (ends_serving d g want w p at by) h = h
  Step-IsReady (opens_dns d p closed) (ready, was) = (ready, inr was)
  Step-IsReady (closes_dns d why) (ready, was) = (ready, inr was)
  Step-IsReady (opens_pinner d p closed) h = h
  Step-IsReady (closes_pinner d done) h = h
  Step-IsReady (expires d now live up) h = h
  Step-IsReady (visits d state c up there on named) h = h
  Step-IsReady (sniffs d state line ip mac now up there e) h = h
  Step-IsReady (closes_sniffer d done) h = h

  not_serving : {A : Type 0} (d : Daemon W) (g : Group) → d.proxy ≡ serving g → IsWaiting d → A
  not_serving d g p (_, _, (off, _, _), _, _) = absurd (subst NotServing p off)

  -- A step of a daemon that waits leaves it waiting, or closes `ciscoReady`.
  Step-IsWaiting :
      {d e : Daemon W} → Step ops opts origin d e → IsWaiting d → IsReady e ⊎ IsWaiting e
  Step-IsWaiting (cancels d) h = inr h
  Step-IsWaiting (ticked d inp up) (quiet, never, stages, empty, pins) =
      elim (tick-IsQuiet inp d.sup quiet) [
        | inl (closed, on) ↦ inl (closed, inl on)
        | inr still ↦ inr (still, (still.2, never), stages, empty, pins)
      ]
  Step-IsWaiting (exits d up done) (quiet, never, stages, empty, pins) =
      let still = shutdown-IsQuiet d.sup quiet in inr (still, (still.2, never), stages, empty, pins)
  Step-IsWaiting (opens d p ready) (quiet, _, _, _, _) = absurd (cc (ready, quiet.0))
  Step-IsWaiting (declines d p woken)
        ((shut, noted, down, _, dns_off), never, (_, dns, pinner), empty, pins) =
      inr ((shut, noted, down, refl, dns_off), (down, never), (tt, dns, pinner), empty, pins)
  Step-IsWaiting (ends_group d g p why) h = not_serving d g p h
  Step-IsWaiting (closes_proxy d g p ended) h = not_serving d g p h
  Step-IsWaiting (accepts d g c p up) h = not_serving d g p h
  Step-IsWaiting (accepts_lan d g c p bound) h = not_serving d g p h
  Step-IsWaiting (stops_accepting d g a err p now over) h = not_serving d g p h
  Step-IsWaiting (closes d c) (quiet, never, stages, empty, pins) =
      inr (quiet, never, stages, remove-empty c d.listener.conns empty, pins)
  Step-IsWaiting (greets d lan state peer now there) (quiet, never, stages, empty, pins) =
      inr (quiet, never, stages, empty, greet-pins ops opts lan state peer now (pinning d) ∙ pins)
  Step-IsWaiting (watches d g p up) h = not_serving d g p h
  Step-IsWaiting (stops_watching d g p done) h = not_serving d g p h
  Step-IsWaiting (reads d g p at) h = not_serving d g p h
  Step-IsWaiting (binds d g want succeeds p at) h = not_serving d g p h
  Step-IsWaiting (checks d g want p at token) h = not_serving d g p h
  Step-IsWaiting (retried d g want p at due) h = not_serving d g p h
  Step-IsWaiting (ends_serving d g want w p at by) h = not_serving d g p h
  Step-IsWaiting (opens_dns d p ready) (quiet, _, _, _, _) = absurd (cc (ready, quiet.0))
  Step-IsWaiting (closes_dns d why)
        ((shut, noted, down, proxy_off, _), never, (off, _, pinner), empty, pins) =
      inr ((shut, noted, down, proxy_off, refl), (down, never), (off, tt, pinner), empty, pins)
  Step-IsWaiting (opens_pinner d p ready) (quiet, _, _, _, _) = absurd (cc (ready, quiet.0))
  Step-IsWaiting (closes_pinner d done) (quiet, never, (off, dns, _), empty, pins) =
      inr (quiet, never, (off, dns, tt), empty, pins)
  Step-IsWaiting (expires d now live up) (_, _, (_, _, off), _, _) =
      absurd (subst NotRunning up off)
  Step-IsWaiting (visits d state c up there on named) (_, _, (_, _, off), _, _) =
      absurd (subst NotRunning up off)
  Step-IsWaiting (sniffs d state line ip mac now up there e) (quiet, never, stages, empty, pins) =
      inr (
        quiet,
        never,
        stages,
        empty,
        observe_syn-pins ops state (v4 ip) mac now (pinning d)
              (WasThere-down state d.past there never)
            ∙ pins,
      )
  Step-IsWaiting (closes_sniffer d done) h = inr h

  Reach-IsWaiting :
      (w : W) {d : Daemon W} → Reach ops opts origin (launch opts w) d → IsReady d ⊎ IsWaiting d
  unfolding new_service
  Reach-IsWaiting w here =
      inr ((refl, refl, refl, refl, refl), (refl, tt), (tt, tt, tt), refl, refl)
  Reach-IsWaiting w (next r step) = elim (Reach-IsWaiting w r) [
    | inl ready ↦ inl (Step-IsReady step ready)
    | inr h ↦ Step-IsWaiting step h
  ]

  -- In the whole service, however the goroutines take turns and whatever the network sends: as long
  -- as the VPN was up in none of the states that were there, `ciscoReady` is open, neither server
  -- is marked as started, no connection is tracked, and no address was pinned; and a SYN that is
  -- handled on any of those states runs no ARP command, not even one that only reads.
  pub daemon_waits :
      (w : W) {d : Daemon W} (state : State) (ip : Addr) (mac : Bytes) (now : ℕ)
      → Reach ops opts origin (launch opts w) d
      → NeverUp d.past
      → WasThere state d.past
      → (d.sup.shared.ready_closed ≡ false)
        × (d.sup.shared.status.proxy_started ≡ false)
        × (d.sup.shared.status.dns_started ≡ false)
        × (d.listener.conns.conns ≡ [])
        × (d.pins ≡ [])
        × ((observe_syn ops state ip mac now (pinning d)).world ≡ d.world)
  daemon_waits w {d} state ip mac now r never there =
      let unread =
        observe_syn-world_down ops state ip mac now (pinning d)
          (WasThere-down state d.past there never) in
      elim (Reach-IsWaiting w r) [
        | inl (_, was) ↦ absurd (WasUp-NeverUp d.past was never)
        | inr ((shut, _, _, proxy_off, dns_off), _, _, empty, pins) ↦
            (shut, proxy_off, dns_off, empty, pins, unread)
      ]
