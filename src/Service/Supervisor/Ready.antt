-- ===== src/Service/Supervisor/Ready.antt =====
-- The supervisor's invariant: `ciscoReady` is closed once, and the packet filter is recorded as
-- disabled only while the VPN is up.
use cisco_socks_server.Prelude.{
  Bool, true, false, not, ◌&&◌, List, [], ◌∷◌, Option, none, some, ◌≡◌, refl, arith, ◌≤◌,
}
use cisco_socks_server.Net.Addr.{Addr}
use cisco_socks_server.Route.Lan.{Detected, found, no_lan, failed}
use cisco_socks_server.Cisco.{
  VpnState, connected, disconnected, reconnecting, unknown, ConnectResult, acquired, connect_failed,
  connect_ok,
}
use cisco_socks_server.Service.State.{LanSnapshot}
use cisco_socks_server.Service.Supervisor.{
  Shared, Supervisor, Input, start, cisco_poll_interval, cisco_max_connect_delay, confirm_lan,
  apply_lan, keep_lan, found_lan, detect_lan, set_connected, await_reconnect, connect_with, connect,
  on_state, disable_pf, notify_ready, when_connected, tick, rounds,
}

pub record IsSound (sv : Supervisor) : Type 0 where
  pub ready : sv.shared.ready_closed ≡ sv.ready_notified
  pub calm : sv.shared.panicked ≡ false
  pub filtered : (sv.shared.status.pf_disabled && not sv.shared.status.cisco_connected) ≡ false
  pub least : cisco_poll_interval ≤ sv.connect_delay
  pub most : sv.connect_delay ≤ cisco_max_connect_delay

found_lan-IsSound :
    (cur next : LanSnapshot) (addr : Addr) (sv : Supervisor)
    → IsSound sv
    → IsSound (found_lan cur next addr sv)
unfolding found_lan confirm_lan apply_lan keep_lan
found_lan-IsSound cur next addr sv v = ground arith

pub detect_lan-IsSound : (d : Detected) (sv : Supervisor) → IsSound sv → IsSound (detect_lan d sv)
unfolding detect_lan
detect_lan-IsSound (found a iface) sv v = found_lan-IsSound _ _ _ sv v
detect_lan-IsSound no_lan sv v = ground arith
detect_lan-IsSound failed sv v = ground arith

set_connected-IsSound : (up : Bool) (sv : Supervisor) → IsSound sv → IsSound (set_connected up sv)
unfolding set_connected
set_connected-IsSound up sv v = ground arith

await_reconnect-IsSound :
    (inp : Input) (sv : Supervisor) → IsSound sv → IsSound (await_reconnect inp sv)
unfolding await_reconnect
await_reconnect-IsSound inp sv v = ground arith

connect_with-IsSound :
    (inp : Input) (r : ConnectResult) (sv : Supervisor)
    → IsSound sv
    → IsSound (connect_with inp r sv).0
unfolding connect_with set_connected
connect_with-IsSound inp acquired sv v = v
connect_with-IsSound inp connect_failed sv v = ground arith
connect_with-IsSound inp connect_ok sv v = ground arith

connect-IsSound : (inp : Input) (sv : Supervisor) → IsSound sv → IsSound (connect inp sv).0
unfolding connect
connect-IsSound inp sv v = connect_with-IsSound inp inp.connects _ (ground arith)

pub on_state-IsSound :
    (inp : Input) (st : Option VpnState) (sv : Supervisor)
    → IsSound sv
    → IsSound (on_state inp st sv).0
unfolding on_state
on_state-IsSound inp none sv v = v
on_state-IsSound inp (some connected) sv v = set_connected-IsSound true _ (ground arith)
on_state-IsSound inp (some reconnecting) sv v =
    await_reconnect-IsSound inp _ (set_connected-IsSound false sv v)
on_state-IsSound inp (some disconnected) sv v =
    connect-IsSound inp _ (set_connected-IsSound false _ (ground arith))
on_state-IsSound inp (some unknown) sv v =
    connect-IsSound inp _ (set_connected-IsSound false _ (ground arith))

when_connected-IsSound :
    (inp : Input) (sv : Supervisor) → IsSound sv → IsSound (when_connected inp sv)
unfolding when_connected disable_pf notify_ready
when_connected-IsSound inp sv v = ground arith

pub tick-IsSound : (inp : Input) (sv : Supervisor) → IsSound sv → IsSound (tick inp sv).0
unfolding tick
tick-IsSound inp sv v =
    when_connected-IsSound inp _
      (on_state-IsSound inp inp.vpn_state _ (detect_lan-IsSound inp.detected sv v))

rounds-IsSound : (inps : List Input) (sv : Supervisor) → IsSound sv → IsSound (rounds inps sv)
unfolding rounds
rounds-IsSound [] sv v = v
rounds-IsSound (inp ∷ inps) sv v = rounds-IsSound inps _ (tick-IsSound inp sv v)

start-IsSound :
    (shared : Shared)
    → shared.ready_closed ≡ false
    → shared.panicked ≡ false
    → shared.status.pf_disabled ≡ false
    → IsSound (start shared)
start-IsSound shared fresh calm on = record {
  ready = fresh;
  calm = calm;
  filtered = ground arith;
  least = omega arith;
  most = omega arith;
}

-- From a fresh service, in every run of the supervisor, `ciscoReady` is never closed twice, it is
-- closed exactly when that is noted, and while the VPN is down the packet filter counts as enabled.
pub rounds-start-IsSound :
    (inps : List Input) (shared : Shared)
    → shared.ready_closed ≡ false
    → shared.panicked ≡ false
    → shared.status.pf_disabled ≡ false
    → IsSound (rounds inps (start shared))
rounds-start-IsSound inps shared fresh calm on =
    rounds-IsSound inps _ (start-IsSound shared fresh calm on)

when_connected_ready :
    (inp : Input) (sv : Supervisor)
    → IsSound sv
    → sv.shared.status.cisco_connected ≡ true
    → ((when_connected inp sv).shared.ready_closed ≡ true)
      × ((when_connected inp sv).shared.status.cisco_connected ≡ true)
unfolding when_connected disable_pf notify_ready
when_connected_ready inp sv v up = (ground arith, ground arith)

on_state_connected :
    (inp : Input) (st : Option VpnState) (sv : Supervisor)
    → st ≡ some connected
    → ((on_state inp st sv).0.shared.status.cisco_connected ≡ true)
      × ((on_state inp st sv).1 ≡ cisco_poll_interval)
on_state_connected inp st sv e = rw e (unfold on_state set_connected in (refl, refl))

-- When the client reports a connection, the round ends with the VPN recorded as up, the other
-- goroutines released, and the next round after the poll interval.
pub tick_connected :
    (inp : Input) (sv : Supervisor)
    → IsSound sv
    → inp.vpn_state ≡ some connected
    → ((tick inp sv).0.shared.ready_closed ≡ true)
      × ((tick inp sv).0.shared.status.cisco_connected ≡ true)
      × ((tick inp sv).1 ≡ cisco_poll_interval)
unfolding tick
tick_connected inp sv v state =
    let sv' = detect_lan inp.detected sv in
    let v' = on_state-IsSound inp inp.vpn_state sv' (detect_lan-IsSound inp.detected sv v) in
    let (up, delay) = on_state_connected inp inp.vpn_state sv' state in
    let (closed, still) = when_connected_ready inp (on_state inp inp.vpn_state sv').0 v' up in
    (closed, still, delay)
