-- ===== src/Service/Daemon/Kernel.antt =====
-- What the whole service shows of the registry and the kernel: a run of `Service/System`.
use cisco_socks_server.Prelude.{ℕ, Bool, true, false, ◌&&◌, Option, Bool-cases, inl, inr}
use cisco_socks_server.Net.Addr.{Addr, V6Text}
use cisco_socks_server.Shell.{Ran}
use cisco_socks_server.Route.Commands.{Args}
use cisco_socks_server.Service.State.{State, Options, LanSnapshot, discovery_enabled}
use cisco_socks_server.Service.Pinner.{PinOps}
use cisco_socks_server.Service.Proxy.{greet, remote_addr}
use cisco_socks_server.Service.System
use cisco_socks_server.Service.System.{System, arp_ops, boot}
use cisco_socks_server.Service.System.Safety.{IsSafe, service-IsSafe}
use cisco_socks_server.Service.Stages.{Daemon, launch, pinning, with_pinning}
use cisco_socks_server.Service.Daemon.{
  Step, Reach, here, next, cancels, ticked, exits, opens, declines, ends_group, closes_proxy,
  accepts, accepts_lan, stops_accepting, closes, greets, watches, stops_watching, reads, binds,
  checks, retried, ends_serving, opens_dns, closes_dns, opens_pinner, closes_pinner, expires,
  visits, sniffs, closes_sniffer,
}

abbrev pub system_of : {W : Type 0} → Daemon W → System W
system_of d = record { sup = d.sup; world = d.world; pins = d.pins }

module _ {W : Type 0} (ops : PinOps W) ⦃t : V6Text⦄ (opts : Options)
    (origin : ℕ → LanSnapshot) where
  greet-system :
      {s : System W} (d : Daemon W) (lan : Bool) (state : State) (peer : Option Addr) (now : ℕ)
      → System.Reach ops s (system_of d)
      → System.Reach ops s
          (system_of (with_pinning (greet ops opts lan state peer now (pinning d)) d))
  unfolding greet
  greet-system d lan state peer now r = elim (Bool-cases (lan && discovery_enabled opts)) [
    | inl on ↦ rw on (System.next r (System.discovered (system_of d) state (remote_addr peer) now))
    | inr off ↦ rw off r
  ]

  step-system :
      {s : System W} {d e : Daemon W}
      → Step ops opts origin d e
      → System.Reach ops s (system_of d)
      → System.Reach ops s (system_of e)
  step-system (cancels d) r = r
  step-system (ticked d inp up) r = System.next r (System.ticked (system_of d) inp)
  step-system (exits d up done) r = System.next r (System.exited (system_of d))
  step-system (opens d p ready) r = System.next r (System.marked_proxy (system_of d) true)
  step-system (declines d p woken) r = System.next r (System.marked_proxy (system_of d) false)
  step-system (ends_group d g p why) r = r
  step-system (closes_proxy d g p ended) r = System.next r (System.marked_proxy (system_of d) false)
  step-system (accepts d g c p up) r = r
  step-system (accepts_lan d g c p bound) r = r
  step-system (stops_accepting d g a err p now over) r = r
  step-system (closes d c) r = r
  step-system (greets d lan state peer now was) r = greet-system d lan state peer now r
  step-system (watches d g p up) r = r
  step-system (stops_watching d g p done) r = r
  step-system (reads d g p at) r = r
  step-system (binds d g want succeeds p at) r = r
  step-system (checks d g want p at token) r = System.next r (System.checked (system_of d))
  step-system (retried d g want p at due) r = r
  step-system (ends_serving d g want w p at by) r = r
  step-system (opens_dns d p ready) r = System.next r (System.marked_dns (system_of d) true)
  step-system (closes_dns d why) r = System.next r (System.marked_dns (system_of d) false)
  step-system (opens_pinner d p ready) r = r
  step-system (closes_pinner d done) r = r
  step-system (expires d now live up) r = System.next r (System.expired (system_of d) now live)
  step-system (visits d state c up was on named) r =
      System.next r (System.visited (system_of d) state c)
  step-system (sniffs d state line ip mac now up was e) r =
      System.next r (System.sniffed (system_of d) state line ip mac now e)
  step-system (closes_sniffer d done) r = r

  reach-system :
      (w : W) {d : Daemon W}
      → Reach ops opts origin (launch opts w) d
      → System.Reach ops (boot opts.lan_clients w) (system_of d)
  reach-system w here = System.here
  reach-system w (next r step) = step-system step (reach-system w r)

-- In the whole service, whatever the commands answer, however the goroutines take turns, and
-- however old the state is that they act on: `ciscoReady` is closed at most once, while the VPN is
-- down the packet filter counts as enabled, the registry has one entry for each client with an
-- address that is canonical or not known, and no client of the configuration is lost.
pub daemon-IsSafe :
    {W : Type 0} ⦃t : V6Text⦄ (run : Args → W → Ran × W) (opts : Options) (origin : ℕ → LanSnapshot)
    (w : W) {d : Daemon W}
    → Reach (arp_ops run) opts origin (launch opts w) d
    → IsSafe opts.lan_clients d.sup
daemon-IsSafe run opts origin w r =
    service-IsSafe run opts.lan_clients w (reach-system (arp_ops run) opts origin w r)
