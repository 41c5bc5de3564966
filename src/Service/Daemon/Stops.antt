-- ===== src/Service/Daemon/Stops.antt =====
-- internal/service/service.go: the ways of the goroutines to their return, once the context is done.
use cisco_socks_server.Prelude.{ℕ, true, ◌≡◌}
use cisco_socks_server.Net.Addr.{V6Text}
use cisco_socks_server.Service.State.{Options, LanSnapshot}
use cisco_socks_server.Service.Pinner.{PinOps}
use cisco_socks_server.Service.Daemon.Clean.{IsBegun}
use cisco_socks_server.Service.Stages.{stopped, Group, serving, proxy_stopped, Daemon}

-- Every goroutine of `Start` has returned.
abbrev pub HasReturned : {W : Type 0} → Daemon W → Type 0
HasReturned d =
    (d.cisco ≡ stopped)
    × (d.proxy ≡ proxy_stopped)
    × (d.dns ≡ stopped)
    × (d.pinner ≡ stopped)
    × (d.sniffer ≡ stopped)

module _ {W : Type 0} (ops : PinOps W) ⦃t : V6Text⦄ (opts : Options)
    (origin : ℕ → LanSnapshot) where
  -- The context is done, and the supervisor runs or has returned.
  abbrev IsEnding : Daemon W → Type 0
  IsEnding d = (d.ctx_done ≡ true) × IsBegun d.cisco

  abbrev HasNoProxy : Daemon W → Type 0
  HasNoProxy d = IsEnding d × (d.proxy ≡ proxy_stopped)

  -- The group of `startProxy` when its context is done and only `serveLAN` is left.
  abbrev HasLan : Daemon W → Group → Type 0
  HasLan d g =
      IsEnding d
      × (d.proxy ≡ serving g)
      × (g.ctx_done ≡ true)
      × (g.loopback ≡ stopped)
      × (g.watcher ≡ stopped)

  abbrev HasNoSupervisor : Daemon W → Type 0
  HasNoSupervisor d = (d.ctx_done ≡ true) × (d.proxy ≡ proxy_stopped) × (d.cisco ≡ stopped)
