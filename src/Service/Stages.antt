-- ===== src/Service/Stages.antt =====
-- internal/service/service.go, proxy.go and lan.go: where the goroutines of `Start` stand, and the
-- service with all of them.
use cisco_socks_server.Prelude.{
  Bool, true, false, List, [], ◌∷◌, Option, none, ◌≡◌, ◌≢◌, ◌⊎◌, if◌then◌else◌,
}
use cisco_socks_server.Service.State.{State, Options, LanSnapshot, discovery_enabled}
use cisco_socks_server.Service.Conns.{Tracker, watch_vpn}
use cisco_socks_server.Service.Listener.{Serving, Wakeup}
use cisco_socks_server.Service.Pinner.{PinCall, Pinning}
use cisco_socks_server.Service.Proxy.{Accepted, conn, failed}
use cisco_socks_server.Service.Supervisor.{Supervisor, start}
use cisco_socks_server.Service.System.{new_service, put_clients}
use cisco_socks_server.Service.Rebind.{Phase, at_head, returned, set_conns}

-- A goroutine that waits for `ciscoReady` or the end of the context, that runs, or has returned.
pub data Stage : Type 0 where
  waiting running stopped : Stage

-- The group of `startProxy`: whether its context is done, its goroutines, where `serveLAN` stands,
-- and what `dropConnsOnVPNLoss` remembers of the VPN.
pub record Group : Type 0 where
  pub ctx_done : Bool
  pub loopback : Stage
  pub watcher : Stage
  pub was_connected : Bool
  pub lan : Phase

-- `startProxy`
pub data ProxyStage : Type 0 where
  proxy_waiting : ProxyStage
  serving : Group → ProxyStage
  proxy_stopped : ProxyStage

-- The service with its goroutines: the supervisor with what it shares, the states that were there,
-- the world of the ARP commands and the pins, the LAN listener with all connections, whether the
-- context is done, and the goroutines.
pub record Daemon (W : Type 0) : Type 0 where
  pub sup : Supervisor
  pub past : List State
  pub world : W
  pub pins : List PinCall
  pub listener : Serving
  pub ctx_done : Bool
  pub cisco : Stage
  pub proxy : ProxyStage
  pub dns : Stage
  pub pinner : Stage
  pub sniffer : Stage

-- A state that was there.
abbrev pub WasThere : State → List State → Type 0
WasThere st [] = ⊥
WasThere st (past ∷ more) = (st ≡ past) ⊎ WasThere st more

-- A group that starts.
abbrev pub new_group : State → Group
new_group st = record {
  ctx_done = false;
  loopback = running;
  watcher = running;
  was_connected = st.cisco_connected;
  lan = at_head;
}

abbrev pub new_serving : Tracker → Serving
new_serving t = record { bound = none; conns = t; warned_no_lan = false }

-- The context of the group is done, if `Accept` fails with one that is done.
abbrev pub InContext : Bool → Accepted → Type 0
InContext done (conn c) = Unit
InContext done (failed ctx_done closed stops) = ctx_done ≡ done

-- The context is done, or the accept loop of the LAN listener has ended.
abbrev pub WakesBy : Bool → Option LanSnapshot → Wakeup → Type 0
WakesBy done bound Wakeup.ctx_done = done ≡ true
WakesBy done bound (Wakeup.loop_ended error) = bound ≢ none
WakesBy done bound _ = ⊥

-- The goroutines of the group have returned.
abbrev pub HasEnded : Group → Type 0
HasEnded g = (g.loopback ≡ stopped) × (g.watcher ≡ stopped) × (g.lan ≡ returned)

-- What `dropConnsOnVPNLoss` leaves: what it remembers, and the connections.
abbrev pub watched : Group → State → Tracker → Bool × Tracker
watched g st t = watch_vpn (g.was_connected, t) st.cisco_connected

module _ {W : Type 0} where
  -- What `Start` finds: a service that `New` has made, and its goroutines at their heads.
  abbrev pub launch : Options → W → Daemon W
  launch opts w = record {
    sup = start (new_service opts.lan_clients);
    past = (new_service opts.lan_clients).status ∷ [];
    world = w;
    pins = [];
    listener = record {
      bound = none;
      conns = record { conns = []; closed = [] };
      warned_no_lan = false;
    };
    ctx_done = false;
    cisco = running;
    proxy = proxy_waiting;
    dns = waiting;
    pinner = waiting;
    sniffer = if discovery_enabled opts then running else stopped;
  }

  -- A new state of the supervisor, or of what it shares.
  abbrev pub with_sup : Supervisor → Daemon W → Daemon W
  with_sup sv d = record d { sup = sv; past = sv.shared.status ∷ d.past }

  -- What the pinner and the sniffer work on.
  abbrev pub pinning : Daemon W → Pinning W
  pinning d = record { clients = d.sup.shared.clients; world = d.world; pins = d.pins }

  abbrev pub with_pinning : Pinning W → Daemon W → Daemon W
  with_pinning p d = record d { sup = put_clients p.clients d.sup; world = p.world; pins = p.pins }

  abbrev pub with_conns : Tracker → Daemon W → Daemon W
  with_conns t d = record d { listener = set_conns t d.listener }

  -- `ciscoReady` is closed, or the context is done.
  abbrev pub Woken : Daemon W → Type 0
  Woken d = (d.sup.shared.ready_closed ≡ true) ⊎ (d.ctx_done ≡ true)
