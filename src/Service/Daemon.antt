-- ===== src/Service/Daemon.antt =====
-- internal/service/service.go: `Start`, all of its goroutines in one relation, from the first round
-- of the supervisor to the last return. A state that a goroutine acts on is one that was there at
-- some time; the context may be done at any time, by a signal or by an error. A round of the
-- supervisor is one step here; `Service/Rebind` takes it in its parts.
pub mod Kernel
pub mod Lan
pub mod Quiet
pub mod Idle
pub mod Clean
pub mod Runs
pub mod Stops
pub mod Catch
use cisco_socks_server.Prelude.{
  ℕ, Bool, true, false, List, [], ◌∷◌, Option, none, some, Bytes, ◌≡◌, ◌≢◌, ◌⊎◌, is_empty,
  if◌then◌else◌,
}
use cisco_socks_server.Net.Addr.{Addr, v4, V6Text}
use cisco_socks_server.Route.Syn.{parse_syn_line}
use cisco_socks_server.Service.State.{State, Options, LanSnapshot, lan_snapshot, discovery_enabled}
use cisco_socks_server.Service.Clients.{Registry, expire, discovered_client_ttl}
use cisco_socks_server.Service.Conns.{Tracker, remove, close_all, watch_vpn}
use cisco_socks_server.Service.Listener.{Serving, serve_round, retries, Wakeup, wake}
use cisco_socks_server.Service.Pinner.{PinOps, PinCall, Pinning, pin_client}
use cisco_socks_server.Service.Sniffer.{observe_syn}
use cisco_socks_server.Service.Proxy.{Accepted, conn, failed, Ended, accept_round, greet, set_proxy}
use cisco_socks_server.Service.Dns.{set_dns}
use cisco_socks_server.Service.Supervisor.{
  Shared, Supervisor, Input, start, tick, shutdown, set_status,
}
use cisco_socks_server.Service.System.{new_service, put_clients}
use cisco_socks_server.Service.Rebind.{
  Phase, at_head, wants, waits, returned, take_check, set_conns, next_phase, next_serving,
}
use cisco_socks_server.Service.Stages.{
  Stage, waiting, running, stopped, Group, ProxyStage, proxy_waiting, serving, proxy_stopped,
  Daemon, WasThere, new_group, new_serving, InContext, WakesBy, HasEnded, watched, launch, with_sup,
  pinning, with_pinning, with_conns, Woken,
}

module _ {W : Type 0} (ops : PinOps W) ⦃t : V6Text⦄ (opts : Options)
    (origin : ℕ → LanSnapshot) where
  -- One turn of a goroutine.
  pub data Step : Daemon W → Daemon W → Type 0 where
    cancels : (d : Daemon W) → Step d (record d { ctx_done = true })
    -- `startCisco`
    ticked :
        (d : Daemon W) (inp : Input) → d.cisco ≡ running → Step d (with_sup (tick inp d.sup).0 d)
    exits :
        (d : Daemon W)
        → d.cisco ≡ running
        → d.ctx_done ≡ true
        → Step d (with_sup (shutdown d.sup) (record d { cisco = stopped }))
    -- `startProxy`
    opens :
        (d : Daemon W)
        → d.proxy ≡ proxy_waiting
        → d.sup.shared.ready_closed ≡ true
        → Step d (
            with_sup (set_status (set_proxy true) d.sup) (record d {
              proxy = serving (new_group d.sup.shared.status);
              listener = new_serving d.listener.conns;
            }))
    declines :
        (d : Daemon W)
        → d.proxy ≡ proxy_waiting
        → Woken d
        → Step d
            (with_sup (set_status (set_proxy false) d.sup) (record d { proxy = proxy_stopped }))
    ends_group :
        (d : Daemon W) (g : Group)
        → d.proxy ≡ serving g
        → (d.ctx_done ≡ true) ⊎ (g.loopback ≡ stopped) ⊎ (g.lan ≡ returned)
        → Step d (record d { proxy = serving (record g { ctx_done = true }) })
    closes_proxy :
        (d : Daemon W) (g : Group)
        → d.proxy ≡ serving g
        → HasEnded g
        → Step d (
            with_sup
              (set_status (set_proxy false) d.sup)
              (with_conns (close_all d.listener.conns).0 (record d { proxy = proxy_stopped })))
    -- `acceptConns`, and the end of a connection
    accepts :
        (d : Daemon W) (g : Group) (c : ℕ)
        → d.proxy ≡ serving g
        → g.loopback ≡ running
        → Step d (with_conns (accept_round false (conn c) d.listener.conns).0 d)
    accepts_lan :
        (d : Daemon W) (g : Group) (c : ℕ)
        → d.proxy ≡ serving g
        → d.listener.bound ≡ some (origin c)
        → Step d (with_conns (accept_round true (conn c) d.listener.conns).0 d)
    stops_accepting :
        (d : Daemon W) (g : Group) (a : Accepted) (e : Ended)
        → d.proxy ≡ serving g
        → InContext g.ctx_done a
        → (accept_round false a d.listener.conns).1 ≡ some e
        → Step d (record d { proxy = serving (record g { loopback = stopped }) })
    closes : (d : Daemon W) (c : ℕ) → Step d (with_conns (remove d.listener.conns c) d)
    greets :
        (d : Daemon W) (lan : Bool) (state : State) (peer : Option Addr) (now : ℕ)
        → WasThere state d.past
        → Step d (with_pinning (greet ops opts lan state peer now (pinning d)) d)
    -- `dropConnsOnVPNLoss`
    watches :
        (d : Daemon W) (g : Group)
        → d.proxy ≡ serving g
        → g.watcher ≡ running
        → Step d (
            with_conns (watched g d.sup.shared.status d.listener.conns).1 (record d {
              proxy =
                  serving (record g {
                    was_connected = (watched g d.sup.shared.status d.listener.conns).0;
                  });
            }))
    stops_watching :
        (d : Daemon W) (g : Group)
        → d.proxy ≡ serving g
        → g.ctx_done ≡ true
        → Step d (record d { proxy = serving (record g { watcher = stopped }) })
    -- `serveLAN`
    reads :
        (d : Daemon W) (g : Group)
        → d.proxy ≡ serving g
        → g.lan ≡ at_head
        → Step d (record d {
          proxy = serving (record g { lan = wants (lan_snapshot d.sup.shared.status) });
        })
    binds :
        (d : Daemon W) (g : Group) (want : LanSnapshot) (succeeds : Bool)
        → d.proxy ≡ serving g
        → g.lan ≡ wants want
        → Step d (record d {
          listener = serve_round want succeeds d.listener;
          proxy = serving (record g { lan = waits want });
        })
    checks :
        (d : Daemon W) (g : Group) (want : LanSnapshot)
        → d.proxy ≡ serving g
        → g.lan ≡ waits want
        → d.sup.shared.lan_check ≡ true
        → Step d (record d { sup = take_check d.sup; proxy = serving (record g { lan = at_head }) })
    retried :
        (d : Daemon W) (g : Group) (want : LanSnapshot)
        → d.proxy ≡ serving g
        → g.lan ≡ waits want
        → retries want d.listener ≡ true
        → Step d (record d { proxy = serving (record g { lan = at_head }) })
    ends_serving :
        (d : Daemon W) (g : Group) (want : LanSnapshot) (w : Wakeup)
        → d.proxy ≡ serving g
        → g.lan ≡ waits want
        → WakesBy g.ctx_done d.listener.bound w
        → Step d (record d {
          listener = next_serving (wake w d.listener);
          proxy = serving (record g { lan = returned });
        })
    -- `startDNS`
    opens_dns :
        (d : Daemon W)
        → d.dns ≡ waiting
        → d.sup.shared.ready_closed ≡ true
        → Step d (with_sup (set_status (set_dns true) d.sup) (record d { dns = running }))
    closes_dns :
        (d : Daemon W)
        → (d.dns ≡ running) ⊎ ((d.dns ≡ waiting) × Woken d)
        → Step d (with_sup (set_status (set_dns false) d.sup) (record d { dns = stopped }))
    -- `startPinner`
    opens_pinner :
        (d : Daemon W)
        → d.pinner ≡ waiting
        → d.sup.shared.ready_closed ≡ true
        → Step d (record d { pinner = running })
    closes_pinner : (d : Daemon W) → d.ctx_done ≡ true → Step d (record d { pinner = stopped })
    expires :
        (d : Daemon W) (now : ℕ) (live : Bytes → Bool)
        → d.pinner ≡ running
        → Step d (
            with_pinning
              (record {
                clients = (expire d.sup.shared.clients now discovered_client_ttl live).0;
                world = d.world;
                pins = d.pins;
              })
              d)
    visits :
        (d : Daemon W) (state : State) (client : Bytes × Bytes)
        → d.pinner ≡ running
        → WasThere state d.past
        → state.cisco_connected ≡ true
        → is_empty state.lan_interface ≡ false
        → Step d (with_pinning (pin_client ops state client (pinning d)) d)
    -- `startSniffer`
    sniffs :
        (d : Daemon W) (state : State) (line : Bytes) (ip : ℕ) (mac : Bytes) (now : ℕ)
        → d.sniffer ≡ running
        → WasThere state d.past
        → parse_syn_line line ≡ some (ip, mac)
        → Step d (with_pinning (observe_syn ops state (v4 ip) mac now (pinning d)) d)
    closes_sniffer : (d : Daemon W) → d.ctx_done ≡ true → Step d (record d { sniffer = stopped })

  pub data Reach (d : Daemon W) : Daemon W → Type 0 where
    here : Reach d d
    next : {e f : Daemon W} → Reach d e → Step e f → Reach d f
