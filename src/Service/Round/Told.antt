-- ===== src/Service/Round/Told.antt =====
-- What a part of a round shows of the LAN and of the checks that are due.
use cisco_socks_server.Prelude.{
  Bool, true, false, ◌||◌, Option, none, some, ◌≡◌, refl, ◌⊎◌, inl, inr, arith,
}
use cisco_socks_server.Net.Addr.{Addr}
use cisco_socks_server.Route.Lan.{Detected, found, no_lan, failed}
use cisco_socks_server.Cisco.{
  VpnState, connected, disconnected, reconnecting, unknown, ConnectResult, acquired, connect_failed,
  connect_ok,
}
use cisco_socks_server.Service.State.{LanSnapshot, lan_snapshot}
use cisco_socks_server.Service.Supervisor.{
  Supervisor, Input, confirm_lan, keep_lan, detect_lan, set_connected, await_reconnect,
  connect_with, connect, when_connected, disable_pf, notify_ready,
}
use cisco_socks_server.Service.Round.{
  Round, between, storing, telling, deciding, acting, finishing, exited, store_lan, look_at, look,
  mark, act, advance,
}

-- The call of `notifyLANCheck` is still to come.
abbrev pub is_telling : Round → Bool
is_telling telling = true
is_telling _ = false

-- What the supervisor shows of the LAN, and whether a check is due: there is a token, or it is about
-- to be put.
abbrev pub Seen : Type 0
Seen = LanSnapshot × Bool

abbrev pub seen_of : Supervisor → Round → Seen
seen_of sv r = (lan_snapshot sv.shared.status, sv.shared.lan_check || is_telling r)

-- A check is due, or the LAN and the checks are what they were.
abbrev pub Told : Seen → Seen → Type 0
Told before after = (after.1 ≡ true) ⊎ (after ≡ before)

look_at-Told :
    (cur next : LanSnapshot) (addr : Addr) (sv : Supervisor)
    → seen_of (look_at cur next addr sv).0 (look_at cur next addr sv).1 ≡ seen_of sv between
unfolding look_at confirm_lan keep_lan lan_snapshot
look_at-Told cur next addr sv = ground arith

look-Told :
    (d : Detected) (sv : Supervisor) → seen_of (look d sv).0 (look d sv).1 ≡ seen_of sv between
unfolding look detect_lan
look-Told (found a iface) sv = look_at-Told _ _ _ sv
look-Told no_lan sv = refl
look-Told failed sv = refl

mark-Told :
    (st : Option VpnState) (sv : Supervisor)
    → seen_of (mark st sv) (acting st) ≡ seen_of sv deciding
unfolding mark set_connected lan_snapshot
mark-Told none sv = refl
mark-Told (some connected) sv = refl
mark-Told (some reconnecting) sv = refl
mark-Told (some disconnected) sv = refl
mark-Told (some unknown) sv = refl

connect_with-Told :
    (inp : Input) (r : ConnectResult) (sv : Supervisor)
    → seen_of (connect_with inp r sv).0 finishing ≡ seen_of sv finishing
unfolding connect_with set_connected lan_snapshot
connect_with-Told inp acquired sv = refl
connect_with-Told inp connect_failed sv = ground arith
connect_with-Told inp connect_ok sv = refl

act-Told :
    (inp : Input) (st : Option VpnState) (sv : Supervisor)
    → seen_of (act inp st sv) finishing ≡ seen_of sv finishing
unfolding act await_reconnect connect lan_snapshot
act-Told inp none sv = refl
act-Told inp (some connected) sv = refl
act-Told inp (some reconnecting) sv = ground arith
act-Told inp (some disconnected) sv = connect_with-Told inp inp.connects _
act-Told inp (some unknown) sv = connect_with-Told inp inp.connects _

when_connected-Told :
    (inp : Input) (sv : Supervisor) → seen_of (when_connected inp sv) between ≡ seen_of sv between
unfolding when_connected notify_ready disable_pf lan_snapshot
when_connected-Told inp sv = ground arith

pub advance-Told :
    (inp : Input) (r : Round) (sv : Supervisor)
    → Told (seen_of sv r) (seen_of (advance inp r sv).0 (advance inp r sv).1)
unfolding advance store_lan
advance-Told inp between sv = inr (look-Told inp.detected sv)
advance-Told inp (storing next addr) sv = inl (ground arith)
advance-Told inp telling sv = inl refl
advance-Told inp deciding sv = inr (mark-Told inp.vpn_state sv)
advance-Told inp (acting st) sv = inr (act-Told inp st sv)
advance-Told inp finishing sv = inr (when_connected-Told inp sv)
advance-Told inp exited sv = inr refl
