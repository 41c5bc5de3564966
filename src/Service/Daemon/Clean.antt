-- ===== src/Service/Daemon/Clean.antt =====
-- What the flags of the service say of its goroutines, and what they leave when they have returned.
use cisco_socks_server.Prelude.{
  ℕ, Bool, true, false, List, [], ◌∷◌, ◌++◌, ◌≡◌, refl, ap, ◌∙◌, arith,
}
use cisco_socks_server.Net.Addr.{V6Text}
use cisco_socks_server.Service.State.{Options, LanSnapshot}
use cisco_socks_server.Service.Pinner.{PinOps}
use cisco_socks_server.Service.Supervisor.{
  Supervisor, Command, ran_disconnect, shutdown, set_connected,
}
use cisco_socks_server.Service.Supervisor.Quiet.{Marks, tick-flags, shutdown-flags}
use cisco_socks_server.Service.System.{new_service}
use cisco_socks_server.Service.Stages.{
  Stage, waiting, running, stopped, ProxyStage, proxy_waiting, serving, proxy_stopped, Daemon,
  launch,
}
use cisco_socks_server.Service.Daemon.{
  Step, Reach, here, next, cancels, ticked, exits, opens, declines, ends_group, closes_proxy,
  accepts, accepts_lan, stops_accepting, closes, greets, watches, stops_watching, reads, binds,
  checks, retried, ends_serving, opens_dns, closes_dns, opens_pinner, closes_pinner, expires,
  visits, sniffs, closes_sniffer,
}

abbrev pub is_serving : ProxyStage → Bool
is_serving proxy_waiting = false
is_serving (serving g) = true
is_serving proxy_stopped = false

abbrev pub is_running : Stage → Bool
is_running waiting = false
is_running running = true
is_running stopped = false

-- What `shutdown` leaves: the VPN counts as down and the packet filter as enabled, and a VPN that
-- was ever brought up here has been told to disconnect, last of all.
abbrev pub IsReleased : Supervisor → Type 0
IsReleased sv =
    (sv.shared.status.cisco_connected ≡ false)
    × (sv.shared.status.pf_disabled ≡ false)
    × (sv.connected_by_us ≡ true
        → (cs : List Command) × (sv.commands ≡ cs ++ (ran_disconnect ∷ [])))

shutdown-IsReleased : (sv : Supervisor) → IsReleased (shutdown sv)
unfolding shutdown set_connected
shutdown-IsReleased sv = (ground arith, ground arith, λ ours. (sv.commands, ground arith))

abbrev pub IsBegun : Stage → Type 0
IsBegun waiting = ⊥
IsBegun running = Unit
IsBegun stopped = Unit

-- The flags say which server runs, and a supervisor that has returned is down.
abbrev IsMarked : {W : Type 0} → Daemon W → Type 0
IsMarked d =
    (d.sup.shared.status.proxy_started ≡ is_serving d.proxy)
    × (d.sup.shared.status.dns_started ≡ is_running d.dns)
    × (d.cisco ≡ stopped → IsReleased d.sup)
    × IsBegun d.cisco

module _ {W : Type 0} (ops : PinOps W) ⦃t : V6Text⦄ (opts : Options)
    (origin : ℕ → LanSnapshot) where
  Step-IsMarked : {d e : Daemon W} → Step ops opts origin d e → IsMarked d → IsMarked e
  Step-IsMarked (cancels d) h = h
  Step-IsMarked (ticked d inp up) (proxy, dns, down, begun) =
      let (same_proxy, same_dns, _) = tick-flags inp d.sup in
      (same_proxy ∙ proxy, same_dns ∙ dns, λ over. absurd (cc (up, over)), begun)
  Step-IsMarked (exits d up done) (proxy, dns, down, begun) =
      let same = (shutdown-flags d.sup).0 in
      (
        ap (λ (m : Marks). m.proxy) same ∙ proxy,
        ap (λ (m : Marks). m.dns) same ∙ dns,
        λ over. shutdown-IsReleased d.sup,
        tt,
      )
  Step-IsMarked (opens d p ready) (proxy, dns, down, begun) = (refl, dns, down, begun)
  Step-IsMarked (declines d p woken) (proxy, dns, down, begun) = (refl, dns, down, begun)
  Step-IsMarked (ends_group d g p why) (proxy, dns, down, begun) =
      (proxy ∙ ap is_serving p, dns, down, begun)
  Step-IsMarked (closes_proxy d g p ended) (proxy, dns, down, begun) = (refl, dns, down, begun)
  Step-IsMarked (accepts d g c p up) h = h
  Step-IsMarked (accepts_lan d g c p bound) h = h
  Step-IsMarked (stops_accepting d g a err p now over) (proxy, dns, down, begun) =
      (proxy ∙ ap is_serving p, dns, down, begun)
  Step-IsMarked (closes d c) h = h
  Step-IsMarked (greets d lan state peer now there) h = h
  Step-IsMarked (watches d g p up) (proxy, dns, down, begun) =
      (proxy ∙ ap is_serving p, dns, down, begun)
  Step-IsMarked (stops_watching d g p done) (proxy, dns, down, begun) =
      (proxy ∙ ap is_serving p, dns, down, begun)
  Step-IsMarked (reads d g p at) (proxy, dns, down, begun) =
      (proxy ∙ ap is_serving p, dns, down, begun)
  Step-IsMarked (binds d g want succeeds p at) (proxy, dns, down, begun) =
      (proxy ∙ ap is_serving p, dns, down, begun)
  Step-IsMarked (checks d g want p at token) (proxy, dns, down, begun) =
      (proxy ∙ ap is_serving p, dns, down, begun)
  Step-IsMarked (retried d g want p at due) (proxy, dns, down, begun) =
      (proxy ∙ ap is_serving p, dns, down, begun)
  Step-IsMarked (ends_serving d g want w p at by) (proxy, dns, down, begun) =
      (proxy ∙ ap is_serving p, dns, down, begun)
  Step-IsMarked (opens_dns d p ready) (proxy, dns, down, begun) = (proxy, refl, down, begun)
  Step-IsMarked (closes_dns d why) (proxy, dns, down, begun) = (proxy, refl, down, begun)
  Step-IsMarked (opens_pinner d p ready) h = h
  Step-IsMarked (closes_pinner d done) h = h
  Step-IsMarked (expires d now live up) h = h
  Step-IsMarked (visits d state c up there on named) h = h
  Step-IsMarked (sniffs d state line ip mac now up there e) h = h
  Step-IsMarked (closes_sniffer d done) h = h

  pub Reach-IsMarked : (w : W) {d : Daemon W} → Reach ops opts origin (launch opts w) d → IsMarked d
  unfolding new_service
  Reach-IsMarked w here = (refl, refl, λ over. absurd (cc over), tt)
  Reach-IsMarked w (next r step) = Step-IsMarked step (Reach-IsMarked w r)

  -- In the whole service, however the goroutines take turns: the SOCKS server is marked as started
  -- exactly while `startProxy` serves, and the DNS server exactly while `startDNS` runs.
  pub daemon-marks :
      (w : W) {d : Daemon W}
      → Reach ops opts origin (launch opts w) d
      → (d.sup.shared.status.proxy_started ≡ is_serving d.proxy)
        × (d.sup.shared.status.dns_started ≡ is_running d.dns)
  daemon-marks w r = let (proxy, dns, _, _) = Reach-IsMarked w r in (proxy, dns)
