-- ===== src/Service/Supervisor/Quiet.antt =====
-- What a round of the supervisor leaves alone until the VPN is up.
use cisco_socks_server.Prelude.{
  Bool, true, false, Option, none, some, ◌≡◌, refl, ◌∙◌, ◌⊎◌, inl, inr, arith, Bool-cases, ap,
}
use cisco_socks_server.Net.Addr.{Addr}
use cisco_socks_server.Route.Lan.{Detected, found, no_lan, failed}
use cisco_socks_server.Cisco.{
  VpnState, connected, disconnected, reconnecting, unknown, ConnectResult, acquired, connect_failed,
  connect_ok,
}
use cisco_socks_server.Service.State.{LanSnapshot}
use cisco_socks_server.Service.Supervisor.{
  Supervisor, Input, confirm_lan, apply_lan, keep_lan, found_lan, detect_lan, set_connected,
  await_reconnect, connect_with, connect, on_state, disable_pf, notify_ready, when_connected, tick,
  shutdown,
}

-- Whether `ciscoReady` is closed, whether that is noted, and the flags of the two servers.
pub record Marks : Type 0 where
  pub closed : Bool
  pub notified : Bool
  pub proxy : Bool
  pub dns : Bool

abbrev pub marks_of : Supervisor → Marks
marks_of sv = record {
  closed = sv.shared.ready_closed;
  notified = sv.ready_notified;
  proxy = sv.shared.status.proxy_started;
  dns = sv.shared.status.dns_started;
}

found_lan-marks :
    (cur new : LanSnapshot) (addr : Addr) (sv : Supervisor)
    → marks_of (found_lan cur new addr sv) ≡ marks_of sv
unfolding found_lan confirm_lan apply_lan keep_lan
found_lan-marks cur new addr sv = ground arith

detect_lan-marks : (d : Detected) (sv : Supervisor) → marks_of (detect_lan d sv) ≡ marks_of sv
unfolding detect_lan
detect_lan-marks (found a iface) sv = found_lan-marks _ _ _ sv
detect_lan-marks no_lan sv = refl
detect_lan-marks failed sv = refl

connect_with-marks :
    (inp : Input) (r : ConnectResult) (sv : Supervisor)
    → marks_of (connect_with inp r sv).0 ≡ marks_of sv
unfolding connect_with set_connected
connect_with-marks inp acquired sv = refl
connect_with-marks inp connect_failed sv = ground arith
connect_with-marks inp connect_ok sv = refl

on_state-marks :
    (inp : Input) (st : Option VpnState) (sv : Supervisor)
    → marks_of (on_state inp st sv).0 ≡ marks_of sv
unfolding on_state set_connected await_reconnect connect
on_state-marks inp none sv = refl
on_state-marks inp (some connected) sv = refl
on_state-marks inp (some reconnecting) sv = ground arith
on_state-marks inp (some disconnected) sv = connect_with-marks inp inp.connects _
on_state-marks inp (some unknown) sv = connect_with-marks inp inp.connects _

-- The round up to its last part.
abbrev middle : Input → Supervisor → Supervisor
middle inp sv = (on_state inp inp.vpn_state (detect_lan inp.detected sv)).0

middle-marks : (inp : Input) (sv : Supervisor) → marks_of (middle inp sv) ≡ marks_of sv
middle-marks inp sv =
    on_state-marks inp inp.vpn_state (detect_lan inp.detected sv) ∙ detect_lan-marks inp.detected sv

when_connected-flags :
    (inp : Input) (sv : Supervisor)
    → ((when_connected inp sv).shared.status.proxy_started ≡ sv.shared.status.proxy_started)
      × ((when_connected inp sv).shared.status.dns_started ≡ sv.shared.status.dns_started)
      × (sv.shared.ready_closed ≡ true → (when_connected inp sv).shared.ready_closed ≡ true)
unfolding when_connected notify_ready disable_pf
when_connected-flags inp sv = (ground arith, ground arith, λ h. ground arith)

-- A round sets no flag of the servers, and does not open `ciscoReady` again.
pub tick-flags :
    (inp : Input) (sv : Supervisor)
    → ((tick inp sv).0.shared.status.proxy_started ≡ sv.shared.status.proxy_started)
      × ((tick inp sv).0.shared.status.dns_started ≡ sv.shared.status.dns_started)
      × (sv.shared.ready_closed ≡ true → (tick inp sv).0.shared.ready_closed ≡ true)
unfolding tick
tick-flags inp sv =
    let (proxy, dns, ready) = when_connected-flags inp (middle inp sv) in
    let same = middle-marks inp sv in
    (
      proxy ∙ ap (λ (m : Marks). m.proxy) same,
      dns ∙ ap (λ (m : Marks). m.dns) same,
      λ h. ready (ap (λ (m : Marks). m.closed) same ∙ h),
    )

when_connected_quiet :
    (inp : Input) (sv : Supervisor)
    → sv.ready_notified ≡ false
    → (((when_connected inp sv).shared.ready_closed ≡ true)
        × ((when_connected inp sv).shared.status.cisco_connected ≡ true))
      ⊎ ((when_connected inp sv ≡ sv) × (sv.shared.status.cisco_connected ≡ false))
unfolding when_connected notify_ready disable_pf
when_connected_quiet inp sv h = elim (Bool-cases sv.shared.status.cisco_connected) [
  | inl up ↦ inl (ground arith, ground arith)
  | inr down ↦ inr (rw down refl, down)
]

-- A round that finds the VPN up closes `ciscoReady`, any other leaves it down.
pub tick_quiet :
    (inp : Input) (sv : Supervisor)
    → sv.shared.ready_closed ≡ false
    → sv.ready_notified ≡ false
    → let sv' = (tick inp sv).0 in
      ((sv'.shared.ready_closed ≡ true) × (sv'.shared.status.cisco_connected ≡ true))
      ⊎ ((sv'.shared.ready_closed ≡ false)
          × (sv'.ready_notified ≡ false)
          × (sv'.shared.status.cisco_connected ≡ false))
unfolding tick
tick_quiet inp sv shut noted =
    let same = middle-marks inp sv in
    elim (when_connected_quiet inp (middle inp sv) (ap (λ (m : Marks). m.notified) same ∙ noted)) [
      | inl closed ↦ inl closed
      | inr (still, down) ↦ inr (
        ap (λ (s : Supervisor). s.shared.ready_closed) still
            ∙ ap (λ (m : Marks). m.closed) same
            ∙ shut,
        ap (λ (s : Supervisor). s.ready_notified) still
            ∙ ap (λ (m : Marks). m.notified) same
            ∙ noted,
        ap (λ (s : Supervisor). s.shared.status.cisco_connected) still ∙ down,
      )
    ]

pub shutdown-flags :
    (sv : Supervisor)
    → (marks_of (shutdown sv) ≡ marks_of sv) × ((shutdown sv).shared.status.cisco_connected ≡ false)
unfolding shutdown set_connected
shutdown-flags sv = (ground arith, ground arith)
