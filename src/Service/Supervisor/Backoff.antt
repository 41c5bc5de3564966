-- ===== src/Service/Supervisor/Backoff.antt =====
-- The delays between the rounds, and the commands that the supervisor issues.
use native.Mathlib.Nat.{add-zero, pow-suc}
use cisco_socks_server.Prelude.{
  ℕ, ◌+◌, ◌*◌, ◌^◌, ◌≤◌, min, Bool, true, false, ◌||◌, ◌&&◌, List, [], ◌∷◌, ◌++◌, Option, none,
  some, if◌then◌else◌, ◌≡◌, refl, ap, subst, suc, ◌∙◌, arith, ◌⊎◌, inl, inr, All, any, length,
}
use cisco_socks_server.Net.Addr.{Addr}
use cisco_socks_server.Route.Lan.{Detected, found, no_lan, failed}
use cisco_socks_server.Cisco.{
  VpnState, connected, disconnected, reconnecting, unknown, ConnectResult, acquired, connect_failed,
  connect_ok,
}
use cisco_socks_server.Service.State.{LanSnapshot}
use cisco_socks_server.Service.Supervisor.{
  Shared, Supervisor, Input, ran_disconnect, start, cisco_poll_interval, cisco_max_connect_delay,
  confirm_lan, apply_lan, keep_lan, found_lan, detect_lan, set_connected, await_reconnect,
  connect_with, connect, on_state, disable_pf, notify_ready, when_connected, tick, shutdown, rounds,
  start_cisco,
}
use cisco_socks_server.Service.Supervisor.Ready.{IsSound, detect_lan-IsSound}

found_lan_own :
    (cur next : LanSnapshot) (addr : Addr) (sv : Supervisor)
    → ((found_lan cur next addr sv).connect_delay ≡ sv.connect_delay)
      × ((found_lan cur next addr sv).connected_by_us ≡ sv.connected_by_us)
unfolding found_lan confirm_lan apply_lan keep_lan
found_lan_own cur next addr sv = (ground arith, ground arith)

detect_lan_own :
    (d : Detected) (sv : Supervisor)
    → ((detect_lan d sv).connect_delay ≡ sv.connect_delay)
      × ((detect_lan d sv).connected_by_us ≡ sv.connected_by_us)
unfolding detect_lan
detect_lan_own (found a iface) sv = found_lan_own _ _ _ sv
detect_lan_own no_lan sv = (refl, refl)
detect_lan_own failed sv = (refl, refl)

when_connected_own :
    (inp : Input) (sv : Supervisor)
    → ((when_connected inp sv).connect_delay ≡ sv.connect_delay)
      × ((when_connected inp sv).connected_by_us ≡ sv.connected_by_us)
unfolding when_connected disable_pf notify_ready
when_connected_own inp sv = (ground arith, ground arith)

-- The client is not connected, and an attempt to connect fails.
abbrev pub IsFailing : Input → Type 0
IsFailing inp =
    (inp.vpn_state ≡ some disconnected) × (inp.connects ≡ connect_failed) × (inp.cancelled ≡ false)

on_state_failing :
    (inp : Input) (sv : Supervisor)
    → IsFailing inp
    → ((on_state inp inp.vpn_state sv).0.connect_delay
        ≡ min (sv.connect_delay * 2) cisco_max_connect_delay)
      × ((on_state inp inp.vpn_state sv).1 ≡ sv.connect_delay)
unfolding on_state connect connect_with set_connected
on_state_failing inp sv h = (ground arith, ground arith)

tick_failing :
    (inp : Input) (sv : Supervisor)
    → IsFailing inp
    → ((tick inp sv).0.connect_delay ≡ min (sv.connect_delay * 2) cisco_max_connect_delay)
      × ((tick inp sv).1 ≡ sv.connect_delay)
unfolding tick
tick_failing inp sv h =
    let sv' = detect_lan inp.detected sv in
    let (doubled, delay) = on_state_failing inp sv' h in
    let same = (detect_lan_own inp.detected sv).0 in
    (
      (when_connected_own inp (on_state inp inp.vpn_state sv').0).0
          ∙ doubled
          ∙ ap (λ d. min (d * 2) cisco_max_connect_delay) same,
      delay ∙ same,
    )

backoff :
    (inps : List Input) (sv : Supervisor) (k : ℕ)
    → All IsFailing inps
    → sv.connect_delay ≡ min (cisco_poll_interval * 2 ^ k) cisco_max_connect_delay
    → (rounds inps sv).connect_delay
      ≡ min (cisco_poll_interval * 2 ^ (k + length inps)) cisco_max_connect_delay
unfolding rounds
backoff [] sv k h e = rw (add-zero k) e
backoff (inp ∷ inps) sv k h e =
    subst
      (λ n.
        (rounds inps (tick inp sv).0).connect_delay
        ≡ min (cisco_poll_interval * 2 ^ n) cisco_max_connect_delay)
      (omega arith)
      (backoff inps (tick inp sv).0 (suc k) h.1
        (omega (arith, (tick_failing inp sv h.0).0, e, pow-suc 2 k)))

-- The client reports a connection, or it is neither connected nor reconnecting and connecting it
-- succeeds.
abbrev pub Connects : Input → Type 0
Connects inp =
    (inp.vpn_state ≡ some connected)
    ⊎ (((inp.vpn_state ≡ some disconnected) ⊎ (inp.vpn_state ≡ some unknown))
        × (inp.connects ≡ connect_ok))

-- A supervisor that starts, or behind a round in which the VPN is found or brought up.
abbrev pub IsAfresh : Supervisor → Type 0
IsAfresh sv =
    ((shared : Shared) × (sv ≡ start shared))
    ⊎ ((inp : Input) × (old : Supervisor) × Connects inp × (sv ≡ (tick inp old).0))

on_state_resets :
    (inp : Input) (sv : Supervisor)
    → Connects inp
    → (on_state inp inp.vpn_state sv).0.connect_delay ≡ cisco_poll_interval
unfolding on_state connect connect_with set_connected
on_state_resets inp sv (inl up) = rw up refl
on_state_resets inp sv (inr (inl down, ok)) = rw (down, ok) refl
on_state_resets inp sv (inr (inr down, ok)) = rw (down, ok) refl

afresh_delay : (sv : Supervisor) → IsAfresh sv → sv.connect_delay ≡ cisco_poll_interval
unfolding tick
afresh_delay sv (inl (shared, e)) = ap (λ (s : Supervisor). s.connect_delay) e
afresh_delay sv (inr (inp, old, up, e)) =
    ap (λ (s : Supervisor). s.connect_delay) e
    ∙ (when_connected_own inp (on_state inp inp.vpn_state (detect_lan inp.detected old)).0).0
    ∙ on_state_resets inp (detect_lan inp.detected old) up

-- At the start, and again after every round in which the VPN is found or brought up: after n
-- failures in a row the next one is followed by a delay of 5 seconds times 2 ^ n, or of a minute if
-- that is less.
pub backoff_delay :
    (inps : List Input) (inp : Input) (sv : Supervisor)
    → IsAfresh sv
    → All IsFailing inps
    → IsFailing inp
    → (tick inp (rounds inps sv)).1
      ≡ min (cisco_poll_interval * 2 ^ length inps) cisco_max_connect_delay
backoff_delay inps inp sv afresh h last =
    (tick_failing inp _ last).1
    ∙ backoff inps sv 0 h (afresh_delay sv afresh ∙ omega arith)
    ∙ ap (λ n. min (cisco_poll_interval * 2 ^ n) cisco_max_connect_delay) (omega arith)

connect_with_delay :
    (inp : Input) (r : ConnectResult) (sv : Supervisor)
    → cisco_poll_interval ≤ sv.connect_delay
    → sv.connect_delay ≤ cisco_max_connect_delay
    → (cisco_poll_interval ≤ (connect_with inp r sv).1)
      × ((connect_with inp r sv).1 ≤ cisco_max_connect_delay)
unfolding connect_with
connect_with_delay inp acquired sv l m = omega arith
connect_with_delay inp connect_failed sv l m = (ground arith, ground arith)
connect_with_delay inp connect_ok sv l m = omega arith

on_state_delay :
    (inp : Input) (st : Option VpnState) (sv : Supervisor)
    → cisco_poll_interval ≤ sv.connect_delay
    → sv.connect_delay ≤ cisco_max_connect_delay
    → (cisco_poll_interval ≤ (on_state inp st sv).1)
      × ((on_state inp st sv).1 ≤ cisco_max_connect_delay)
unfolding on_state connect set_connected
on_state_delay inp none sv l m = omega arith
on_state_delay inp (some connected) sv l m = omega arith
on_state_delay inp (some reconnecting) sv l m = omega arith
on_state_delay inp (some disconnected) sv l m = connect_with_delay inp inp.connects _ l m
on_state_delay inp (some unknown) sv l m = connect_with_delay inp inp.connects _ l m

-- The pause after any round is at least the poll interval and at most a minute.
pub tick_delay :
    (inp : Input) (sv : Supervisor)
    → IsSound sv
    → (cisco_poll_interval ≤ (tick inp sv).1) × ((tick inp sv).1 ≤ cisco_max_connect_delay)
unfolding tick
tick_delay inp sv v =
    let v' = detect_lan-IsSound inp.detected sv v in
    on_state_delay inp inp.vpn_state _ v'.least v'.most

abbrev attempts : Option VpnState → Bool
attempts (some disconnected) = true
attempts (some unknown) = true
attempts _ = false

abbrev succeeds : ConnectResult → Bool
succeeds connect_ok = true
succeeds _ = false

-- The client is neither connected nor reconnecting, and connecting succeeds.
abbrev pub connects_now : Input → Bool
connects_now inp = attempts inp.vpn_state && succeeds inp.connects

connect_with_own :
    (inp : Input) (r : ConnectResult) (sv : Supervisor)
    → (connect_with inp r sv).0.connected_by_us ≡ (succeeds r || sv.connected_by_us)
unfolding connect_with set_connected
connect_with_own inp acquired sv = refl
connect_with_own inp connect_failed sv = ground arith
connect_with_own inp connect_ok sv = refl

on_state_own :
    (inp : Input) (st : Option VpnState) (sv : Supervisor)
    → (on_state inp st sv).0.connected_by_us
      ≡ ((attempts st && succeeds inp.connects) || sv.connected_by_us)
unfolding on_state connect set_connected await_reconnect
on_state_own inp none sv = refl
on_state_own inp (some connected) sv = refl
on_state_own inp (some reconnecting) sv = ground arith
on_state_own inp (some disconnected) sv = connect_with_own inp inp.connects _
on_state_own inp (some unknown) sv = connect_with_own inp inp.connects _

rounds_own :
    (inps : List Input) (sv : Supervisor)
    → (rounds inps sv).connected_by_us ≡ (any connects_now inps || sv.connected_by_us)
unfolding rounds tick
rounds_own [] sv = refl
rounds_own (inp ∷ inps) sv = ground (
  arith,
  rounds_own inps (tick inp sv).0,
  (when_connected_own inp (on_state inp inp.vpn_state (detect_lan inp.detected sv)).0).1,
  on_state_own inp inp.vpn_state (detect_lan inp.detected sv),
  (detect_lan_own inp.detected sv).1,
)

-- On exit the VPN counts as down, and it is disconnected exactly when this process connected it in
-- some round: a connection that the user had made is left alone.
pub start_cisco_exit :
    (inps : List Input) (shared : Shared)
    → ((start_cisco inps shared).commands ≡ (
        if any connects_now inps
        then (rounds inps (start shared)).commands ++ (ran_disconnect ∷ [])
        else (rounds inps (start shared)).commands))
      × ((start_cisco inps shared).shared.status.cisco_connected ≡ false)
unfolding start_cisco shutdown set_connected
start_cisco_exit inps shared = (ground (arith, rounds_own inps (start shared)), ground arith)
