-- ===== src/Service/Gate/Leak.antt =====
-- Nothing passes the gates while the supervisor holds the VPN for down.
use cisco_socks_server.Prelude.{
  Bool, false, Option, none, some, Bytes, ◌≡◌, ◌≢◌, refl, ◌⊎◌, inl, inr, arith,
}
use cisco_socks_server.Cisco.{
  VpnState, connected, disconnected, reconnecting, unknown, ConnectResult, acquired, connect_failed,
  connect_ok,
}
use cisco_socks_server.Service.State.{State}
use cisco_socks_server.Service.Gate.{passed, vpn_gate, resolve}
use cisco_socks_server.Service.Supervisor.{
  Supervisor, Input, detect_lan, set_connected, await_reconnect, connect_with, connect, on_state,
  when_connected, tick,
}

-- The client reports that it is not connected, and no attempt to connect succeeds.
abbrev pub IsDown : Input → Type 0
IsDown inp =
    (inp.vpn_state ≡ some reconnecting)
    ⊎ (((inp.vpn_state ≡ some disconnected) ⊎ (inp.vpn_state ≡ some unknown))
        × (inp.connects ≢ connect_ok))

-- No request passes, and no name is resolved, whatever the resolver would answer.
abbrev pub IsShut {ℓ} : {Ip : Type ℓ} → State → (Bytes → Option Ip) → Bytes → Bool → Type ℓ
IsShut st resolver name sends = (resolve resolver st name ≡ none) × (vpn_gate st sends ≢ passed)

shut {ℓ} :
    {Ip : Type ℓ} (st : State) (resolver : Bytes → Option Ip) (name : Bytes) (sends : Bool)
    → st.cisco_connected ≡ false
    → IsShut st resolver name sends
unfolding resolve vpn_gate
shut st resolver name sends down = (rw down, ground arith)

connect_with_down :
    (inp : Input) (r : ConnectResult) (sv : Supervisor)
    → r ≢ connect_ok
    → (connect_with inp r sv).0.shared.status.cisco_connected ≡ sv.shared.status.cisco_connected
unfolding connect_with
connect_with_down inp acquired sv h = refl
connect_with_down inp connect_failed sv h = ground arith
connect_with_down inp connect_ok sv h = absurd (h refl)

connect_down :
    (inp : Input) (sv : Supervisor)
    → inp.connects ≢ connect_ok
    → (connect inp (set_connected false sv)).0.shared.status.cisco_connected ≡ false
unfolding connect set_connected
connect_down inp sv h = connect_with_down inp inp.connects _ h

await_reconnect_down :
    (inp : Input) (sv : Supervisor)
    → (await_reconnect inp (set_connected false sv)).shared.status.cisco_connected ≡ false
unfolding await_reconnect set_connected
await_reconnect_down inp sv = ground arith

on_state_down :
    (inp : Input) (st : Option VpnState) (sv : Supervisor)
    → (st ≡ some reconnecting)
      ⊎ (((st ≡ some disconnected) ⊎ (st ≡ some unknown)) × (inp.connects ≢ connect_ok))
    → (on_state inp st sv).0.shared.status.cisco_connected ≡ false
unfolding on_state
on_state_down inp none sv (inl e) = cc
on_state_down inp none sv (inr (inl e, h)) = cc
on_state_down inp none sv (inr (inr e, h)) = cc
on_state_down inp (some connected) sv (inl e) = cc
on_state_down inp (some connected) sv (inr (inl e, h)) = cc
on_state_down inp (some connected) sv (inr (inr e, h)) = cc
on_state_down inp (some reconnecting) sv h = await_reconnect_down inp sv
on_state_down inp (some disconnected) sv (inl e) = cc
on_state_down inp (some disconnected) sv (inr (_, h)) = connect_down inp _ h
on_state_down inp (some unknown) sv (inl e) = cc
on_state_down inp (some unknown) sv (inr (_, h)) = connect_down inp _ h

when_connected_down :
    (inp : Input) (sv : Supervisor)
    → sv.shared.status.cisco_connected ≡ false
    → when_connected inp sv ≡ sv
unfolding when_connected
when_connected_down inp sv h = rw h

-- Once a round finds the VPN down, requests are refused and names are not resolved.
pub tick_shuts {ℓ} :
    {Ip : Type ℓ} (inp : Input) (sv : Supervisor) (resolver : Bytes → Option Ip) (name : Bytes)
    (sends : Bool)
    → IsDown inp
    → IsShut (tick inp sv).0.shared.status resolver name sends
unfolding tick
tick_shuts inp sv resolver name sends h =
    let sv' = detect_lan inp.detected sv in
    let down = on_state_down inp inp.vpn_state sv' h in
    rw (when_connected_down inp (on_state inp inp.vpn_state sv').0 down)
      (shut _ resolver name sends down)
