-- ===== src/Service/Round.antt =====
-- internal/service/cisco.go: `tick` in the parts that other goroutines see: each part writes to what
-- is shared at most once.
pub mod Told
use cisco_socks_server.Prelude.{
  Bool, true, false, List, [], ◌∷◌, Option, none, some, ◌≡◌, refl, ap, sym, ◌∙◌, Bool-cases, inl,
  inr, if◌then◌else◌, is_empty, arith,
}
use cisco_socks_server.Net.Addr.{Addr, v4, prefix, masked}
use cisco_socks_server.Route.Lan.{Detected, found, no_lan, failed}
use cisco_socks_server.Cisco.{VpnState, connected, disconnected, reconnecting, unknown}
use cisco_socks_server.Service.State.{LanSnapshot, lan_snapshot}
use cisco_socks_server.Service.Clients.{reset_network}
use cisco_socks_server.Service.Supervisor.{
  Supervisor, Input, confirm_lan, apply_lan, keep_lan, detect_lan, set_connected, await_reconnect,
  connect, on_state, when_connected, found_lan, tick, cisco_poll_interval,
}

-- Where `startCisco` stands: between two rounds; behind the reset of the registry, with a LAN to
-- store; behind the store, with `notifyLANCheck` to call; behind the detection; behind the first
-- write of the switch on the answer of `cisco.Status`; behind the switch; or returned.
pub data Round : Type 0 where
  between : Round
  storing : LanSnapshot → Addr → Round
  telling deciding : Round
  acting : Option VpnState → Round
  finishing exited : Round

-- The three writes of `detectLAN` on a change.
abbrev pub reset_clients : LanSnapshot → Supervisor → Supervisor
reset_clients cur sv =
    let shared = sv.shared in
    record sv {
      shared = record shared {
        clients = if is_empty cur.iface then shared.clients else reset_network shared.clients;
      };
    }

unfoldable pub store_lan : LanSnapshot → Addr → Supervisor → Supervisor
store_lan next addr sv =
    let shared = sv.shared in
    let status = shared.status in
    record sv {
      shared = record shared {
        status = record status {
          lan_subnet = next.subnet;
          lan_addr = addr;
          lan_interface = next.iface;
        };
      };
    }

-- `notifyLANCheck`
abbrev pub notify_lan_check : Supervisor → Supervisor
notify_lan_check sv =
    let shared = sv.shared in record sv { shared = record shared { lan_check = true } }

unfoldable pub look_at : LanSnapshot → LanSnapshot → Addr → Supervisor → Supervisor × Round
look_at cur next addr sv =
    let (sv', confirmed) = confirm_lan sv cur next in
    if confirmed
    then (reset_clients cur sv', storing next addr)
    else (keep_lan cur next addr sv', deciding)

-- `detectLAN`, up to the reset of the registry.
unfoldable pub look : Detected → Supervisor → Supervisor × Round
look (found a iface) sv =
    look_at (lan_snapshot sv.shared.status)
      (record { subnet = masked (prefix a.addr a.bits); iface = iface }) (v4 a.addr) sv
look no_lan sv = (detect_lan no_lan sv, deciding)
look failed sv = (detect_lan failed sv, deciding)

-- The first write of the switch in `tick`.
unfoldable pub mark : Option VpnState → Supervisor → Supervisor
mark none sv = sv
mark (some connected) sv =
    set_connected true (record sv { connect_delay = cisco_poll_interval; reconnecting_since = 0 })
mark (some reconnecting) sv = set_connected false sv
mark (some disconnected) sv = set_connected false (record sv { reconnecting_since = 0 })
mark (some unknown) sv = set_connected false (record sv { reconnecting_since = 0 })

-- What follows in the switch: `awaitReconnect`, `connect` or nothing.
unfoldable pub act : Input → Option VpnState → Supervisor → Supervisor
act inp none sv = sv
act inp (some connected) sv = sv
act inp (some reconnecting) sv = await_reconnect inp sv
act inp (some disconnected) sv = (connect inp sv).0
act inp (some unknown) sv = (connect inp sv).0

-- The next part of a round.
unfoldable pub advance : Input → Round → Supervisor → Supervisor × Round
advance inp between sv = look inp.detected sv
advance inp (storing next addr) sv = (store_lan next addr sv, telling)
advance inp telling sv = (notify_lan_check sv, deciding)
advance inp deciding sv = (mark inp.vpn_state sv, acting inp.vpn_state)
advance inp (acting st) sv = (act inp st sv, finishing)
advance inp finishing sv = (when_connected inp sv, between)
advance inp exited sv = (sv, exited)

-- The rest of a detection, if nothing comes between.
unfoldable pub settle : Supervisor × Round → Supervisor
settle (sv, storing next addr) = notify_lan_check (store_lan next addr sv)
settle (sv, _) = sv

settle-look_at :
    (cur next : LanSnapshot) (addr : Addr) (sv : Supervisor)
    → settle (look_at cur next addr sv) ≡ found_lan cur next addr sv
unfolding settle look_at found_lan apply_lan store_lan
settle-look_at cur next addr sv = elim (Bool-cases (confirm_lan sv cur next).1) [
  | inl e ↦ rw e refl
  | inr e ↦ rw e refl
]

settle-look : (d : Detected) (sv : Supervisor) → settle (look d sv) ≡ detect_lan d sv
unfolding look detect_lan settle
settle-look (found a iface) sv = settle-look_at _ _ _ sv
settle-look no_lan sv = refl
settle-look failed sv = refl

act-mark :
    (inp : Input) (st : Option VpnState) (sv : Supervisor)
    → (on_state inp st sv).0 ≡ act inp st (mark st sv)
unfolding on_state act mark
act-mark inp none sv = refl
act-mark inp (some connected) sv = refl
act-mark inp (some reconnecting) sv = refl
act-mark inp (some disconnected) sv = refl
act-mark inp (some unknown) sv = refl

-- The parts of a round make up `tick`, if no other goroutine comes between.
pub tick-parts :
    (inp : Input) (sv : Supervisor)
    → (tick inp sv).0
      ≡ when_connected inp
          (act inp inp.vpn_state (mark inp.vpn_state (settle (look inp.detected sv))))
unfolding tick
tick-parts inp sv = ap (when_connected inp) (
    act-mark inp inp.vpn_state (detect_lan inp.detected sv)
    ∙ ap (λ s. act inp inp.vpn_state (mark inp.vpn_state s)) (sym (settle-look inp.detected sv)))
