-- ===== src/Service/Supervisor.antt =====
-- internal/service/cisco.go: `ciscoSupervisor`, one round of its loop and its shutdown.
pub mod Backoff
pub mod Ready
pub mod Network
pub mod Quiet
use cisco_socks_server.Prelude.{
  ℕ, ◌+◌, ◌*◌, min, Bool, true, false, not, ◌||◌, ◌&&◌, List, [], ◌∷◌, ◌++◌, Option, none, some,
  Bytes, if◌then◌else◌, is_empty, leb, ◌==◌,
}
use cisco_socks_server.Net.Addr.{Addr, v4, Prefix, prefix, masked}
use cisco_socks_server.Route.Lan.{IfAddr, Detected, found, no_lan, failed}
use cisco_socks_server.Cisco.{
  VpnState, connected, disconnected, reconnecting, unknown, ConnectResult, acquired, connect_failed,
  connect_ok,
}
use cisco_socks_server.Service.State.{
  State, LanSnapshot, zero_snapshot, lan_snapshot, lan_changed, snapshot_eq, time_sub, second,
  minute,
}
use cisco_socks_server.Service.Clients.{Registry, reset_network}

-- `ciscoPollInterval`, `ciscoMaxConnectDelay`, `ciscoReconnectGrace`
abbrev pub cisco_poll_interval : ℕ
cisco_poll_interval = 5 * second

abbrev pub cisco_max_connect_delay : ℕ
cisco_max_connect_delay = minute

abbrev pub cisco_reconnect_grace : ℕ
cisco_reconnect_grace = 2 * minute

-- The commands that are issued.
pub data Command : Type 0 where
  ran_connect ran_disconnect ran_pfctl : Command

-- What the supervisor shares with the other goroutines: `status`, `clients`, whether `ciscoReady`
-- is closed (closing it twice panics), and whether a token waits in `lanCheck`.
pub record Shared : Type 0 where
  pub status : State
  pub clients : Registry
  pub ready_closed : Bool
  pub panicked : Bool
  pub lan_check : Bool

-- `ciscoSupervisor`, with the commands that it has issued, the latest last.
pub record Supervisor : Type 0 where
  pub shared : Shared
  pub reconnecting_since : ℕ
  pub pending_lan : LanSnapshot
  pub connect_delay : ℕ
  pub ready_notified : Bool
  pub connected_by_us : Bool
  pub commands : List Command

-- `startCisco` before its first round.
abbrev pub start : Shared → Supervisor
start shared = record {
  shared = shared;
  reconnecting_since = 0;
  pending_lan = zero_snapshot;
  connect_delay = cisco_poll_interval;
  ready_notified = false;
  connected_by_us = false;
  commands = [];
}

-- What one round meets: the LAN, the time and, a little later, the time again, the answers of the
-- commands, and whether the context is done by the time that `connect` fails.
pub record Input : Type 0 where
  pub detected : Detected
  pub now : ℕ
  pub later : ℕ
  pub vpn_state : Option VpnState
  pub connects : ConnectResult
  pub disconnects : Bool
  pub disables_pf : Bool
  pub cancelled : Bool

-- `setStatus`
abbrev pub set_status : (State → State) → Supervisor → Supervisor
set_status f sv =
    let shared = sv.shared in record sv { shared = record shared { status = f shared.status } }

abbrev pub issue : Command → Supervisor → Supervisor
issue c sv = record sv { commands = sv.commands ++ (c ∷ []) }

-- `confirmLAN`
unfoldable pub confirm_lan : Supervisor → LanSnapshot → LanSnapshot → Supervisor × Bool
confirm_lan sv cur next =
    if not (lan_changed cur next)
    then (record sv { pending_lan = zero_snapshot }, false)
    else if not (is_empty cur.iface) && not (snapshot_eq sv.pending_lan next)
    then (record sv { pending_lan = next }, false)
    else (record sv { pending_lan = zero_snapshot }, true)

-- `detectLAN` on a LAN that is found: when the change is confirmed, and when it is not.
unfoldable pub apply_lan : LanSnapshot → LanSnapshot → Addr → Supervisor → Supervisor
apply_lan cur next addr sv =
    let shared = sv.shared in
    let status = shared.status in
    record sv {
      shared = record shared {
        clients = if is_empty cur.iface then shared.clients else reset_network shared.clients;
        status = record status {
          lan_subnet = next.subnet;
          lan_addr = addr;
          lan_interface = next.iface;
        };
        lan_check = true;
      };
    }

unfoldable pub keep_lan : LanSnapshot → LanSnapshot → Addr → Supervisor → Supervisor
keep_lan cur next addr sv =
    if snapshot_eq next cur then set_status (λ st. record st { lan_addr = addr }) sv else sv

unfoldable pub found_lan : LanSnapshot → LanSnapshot → Addr → Supervisor → Supervisor
found_lan cur next addr sv =
    let (sv', confirmed) = confirm_lan sv cur next in
    if confirmed then apply_lan cur next addr sv' else keep_lan cur next addr sv'

-- `detectLAN`
unfoldable pub detect_lan : Detected → Supervisor → Supervisor
detect_lan (found a iface) sv =
    found_lan (lan_snapshot sv.shared.status)
      (record { subnet = masked (prefix a.addr a.bits); iface = iface }) (v4 a.addr) sv
detect_lan no_lan sv = record sv { pending_lan = zero_snapshot }
detect_lan failed sv = record sv { pending_lan = zero_snapshot }

-- `setConnected`
unfoldable pub set_connected : Bool → Supervisor → Supervisor
set_connected up =
    set_status
      λ st. record st { cisco_connected = up; pf_disabled = if up then st.pf_disabled else false }

-- `awaitReconnect`
unfoldable pub await_reconnect : Input → Supervisor → Supervisor
await_reconnect inp sv =
    let since = if sv.reconnecting_since == 0 then inp.now else sv.reconnecting_since in
    let waiting = record sv { reconnecting_since = since } in
    if leb (time_sub inp.later since) cisco_reconnect_grace
    then waiting
    else issue ran_disconnect
        (if inp.disconnects then record sv { reconnecting_since = 0 } else waiting)

-- The switch on the result of `cisco.Connect`.
unfoldable pub connect_with : Input → ConnectResult → Supervisor → Supervisor × ℕ
connect_with inp acquired sv = (sv, cisco_poll_interval)
connect_with inp connect_failed sv = if inp.cancelled then (sv, cisco_poll_interval) else (
  record sv { connect_delay = min (sv.connect_delay * 2) cisco_max_connect_delay },
  sv.connect_delay,
)
connect_with inp connect_ok sv = (
  set_connected true (record sv { connect_delay = cisco_poll_interval; connected_by_us = true }),
  cisco_poll_interval,
)

-- `connect`: the new state, and the delay before the next round.
unfoldable pub connect : Input → Supervisor → Supervisor × ℕ
connect inp sv = connect_with inp inp.connects (issue ran_connect sv)

-- The switch of `tick` on the state of the client; `none` is an error.
unfoldable pub on_state : Input → Option VpnState → Supervisor → Supervisor × ℕ
on_state inp none sv = (sv, cisco_poll_interval)
on_state inp (some connected) sv = (
  set_connected true (record sv { connect_delay = cisco_poll_interval; reconnecting_since = 0 }),
  cisco_poll_interval,
)
on_state inp (some reconnecting) sv =
    (await_reconnect inp (set_connected false sv), cisco_poll_interval)
on_state inp (some disconnected) sv =
    connect inp (set_connected false (record sv { reconnecting_since = 0 }))
on_state inp (some unknown) sv =
    connect inp (set_connected false (record sv { reconnecting_since = 0 }))

-- `disablePF`
unfoldable pub disable_pf : Input → Supervisor → Supervisor
disable_pf inp sv =
    if sv.shared.status.pf_disabled
    then sv
    else issue ran_pfctl
        (if inp.disables_pf then set_status (λ st. record st { pf_disabled = true }) sv else sv)

-- The close of `ciscoReady`, unless it was done.
unfoldable pub notify_ready : Supervisor → Supervisor
notify_ready sv =
    let shared = sv.shared in
    if sv.ready_notified then sv else record sv {
      shared = record shared {
        ready_closed = true;
        panicked = shared.panicked || shared.ready_closed;
      };
      ready_notified = true;
    }

-- The end of `tick`.
unfoldable pub when_connected : Input → Supervisor → Supervisor
when_connected inp sv =
    if sv.shared.status.cisco_connected then notify_ready (disable_pf inp sv) else sv

-- `tick`: the new state, and the delay before the next round.
unfoldable pub tick : Input → Supervisor → Supervisor × ℕ
tick inp sv =
    let (sv', delay) = on_state inp inp.vpn_state (detect_lan inp.detected sv) in
    (when_connected inp sv', delay)

-- `shutdown`
unfoldable pub shutdown : Supervisor → Supervisor
shutdown sv =
    let down = set_connected false sv in
    if sv.connected_by_us then issue ran_disconnect down else down

-- The rounds of the loop of `startCisco`.
unfoldable pub rounds : List Input → Supervisor → Supervisor
rounds [] sv = sv
rounds (inp ∷ inps) sv = rounds inps (tick inp sv).0

-- `startCisco`, for the inputs of its rounds until the context is done.
unfoldable pub start_cisco : List Input → Shared → Supervisor
start_cisco inps shared = shutdown (rounds inps (start shared))
