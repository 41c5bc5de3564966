-- ===== src/Service/Supervisor/Network.antt =====
-- How the supervisor follows the LAN: a change waits for a second sighting, and the own address
-- stays inside the subnet.
use cisco_socks_server.Prelude.{
  true, false, ◌||◌, [], ◌∷◌, Bytes, if◌then◌else◌, is_empty, ◌≡◌, ◌≢◌, refl, ◌∙◌, ◌⊎◌, inl, inr,
  ◌↔◌, arith, str_eq_iff,
}
use cisco_socks_server.Net.Addr.{
  Addr, v4, Prefix, prefix, no_prefix, prefix_eq, masked, contains_addr,
}
use cisco_socks_server.Net.Addr.Subnet.{contains_addr-masked}
use cisco_socks_server.Route.Lan.{IfAddr, Detected, found, no_lan, failed}
use cisco_socks_server.Service.State.{State, LanSnapshot, lan_snapshot, lan_changed, snapshot_eq}
use cisco_socks_server.Service.Clients.{reset_network}
use cisco_socks_server.Service.Supervisor.{
  Supervisor, confirm_lan, apply_lan, keep_lan, found_lan, detect_lan,
}

prefix_eq_iff : (p q : Prefix) → (prefix_eq p q ≡ true) ↔ (p ≡ q)
prefix_eq_iff no_prefix no_prefix = ground arith
prefix_eq_iff no_prefix (prefix b m) = ground arith
prefix_eq_iff (prefix a n) no_prefix = ground arith
prefix_eq_iff (prefix a n) (prefix b m) = ground arith

pub snapshot_eq_iff : (a b : LanSnapshot) → (snapshot_eq a b ≡ true) ↔ (a ≡ b)
unfolding snapshot_eq
snapshot_eq_iff a b = ground (arith, prefix_eq_iff a.subnet b.subnet, str_eq_iff a.iface b.iface)

-- The LAN that a sighting shows.
abbrev pub sighting : IfAddr → Bytes → LanSnapshot
sighting a iface = record { subnet = masked (prefix a.addr a.bits); iface = iface }

module _ (sv : Supervisor) (d : Detected) where
  abbrev before : LanSnapshot
  before = lan_snapshot sv.shared.status

  abbrev after : LanSnapshot
  after = lan_snapshot (detect_lan d sv).shared.status

  -- What one detection can do: leave the LAN and the clients alone; set the LAN of a service that
  -- had none, and keep the clients; or replace it by the LAN that was waiting, and forget the
  -- clients of the old one. In the last two the owner of the listener is told.
  abbrev pub Outcome : Type 0
  Outcome =
      ((after ≡ before) × ((detect_lan d sv).shared.clients ≡ sv.shared.clients))
      ⊎ (((before.iface ≡ []) ⊎ ((before.iface ≢ []) × (sv.pending_lan ≡ after)))
          × ((detect_lan d sv).shared.clients ≡ (
              if is_empty before.iface then sv.shared.clients else reset_network sv.shared.clients))
          × ((detect_lan d sv).shared.lan_check ≡ true))

found_lan_outcome :
    (next : LanSnapshot) (addr : Addr) (sv : Supervisor)
    → let cur = lan_snapshot sv.shared.status in
      let sv' = found_lan cur next addr sv in
      ((lan_snapshot sv'.shared.status ≡ cur) × (sv'.shared.clients ≡ sv.shared.clients))
      ⊎ (((cur.iface ≡ []) ⊎ ((cur.iface ≢ []) × (sv.pending_lan ≡ lan_snapshot sv'.shared.status)))
          × (sv'.shared.clients
              ≡ (if is_empty cur.iface then sv.shared.clients else reset_network sv.shared.clients))
          × (sv'.shared.lan_check ≡ true))
unfolding found_lan confirm_lan apply_lan keep_lan lan_snapshot
found_lan_outcome next addr sv = ground (arith, snapshot_eq_iff sv.pending_lan next)

-- One detection leaves the LAN and the clients alone, or sets the LAN of a service that had none,
-- or puts the LAN that was waiting from the detection before in place of another; then alone the
-- clients are reset, and whenever the LAN is set the listener's owner is told.
pub detect_lan_outcome : (sv : Supervisor) (d : Detected) → Outcome sv d
unfolding detect_lan
detect_lan_outcome sv (found a iface) = found_lan_outcome (sighting a iface) (v4 a.addr) sv
detect_lan_outcome sv no_lan = inl (refl, refl)
detect_lan_outcome sv failed = inl (refl, refl)

-- A sighting is served at once or waits.
found_lan_once :
    (next : LanSnapshot) (addr : Addr) (sv : Supervisor)
    → let once = found_lan (lan_snapshot sv.shared.status) next addr sv in
      is_empty next.iface ≡ false
      → (lan_snapshot once.shared.status ≡ next) ⊎ (once.pending_lan ≡ next)
unfolding found_lan confirm_lan apply_lan keep_lan lan_snapshot lan_changed
found_lan_once next addr sv named =
    ground (arith, snapshot_eq_iff next (lan_snapshot sv.shared.status))

found_lan_settles :
    (next : LanSnapshot) (addr : Addr) (sv : Supervisor)
    → is_empty next.iface ≡ false
    → (lan_snapshot sv.shared.status ≡ next) ⊎ (sv.pending_lan ≡ next)
    → (lan_snapshot (found_lan (lan_snapshot sv.shared.status) next addr sv).shared.status ≡ next)
      × ((found_lan (lan_snapshot sv.shared.status) next addr sv).shared.status.lan_addr ≡ addr)
unfolding found_lan confirm_lan apply_lan keep_lan lan_snapshot lan_changed
found_lan_settles next addr sv named (inl e) = (
  ground (arith, snapshot_eq_iff next (lan_snapshot sv.shared.status)),
  ground (arith, snapshot_eq_iff next (lan_snapshot sv.shared.status)),
)
found_lan_settles next addr sv named (inr e) = (
  ground (
    arith,
    snapshot_eq_iff next (lan_snapshot sv.shared.status),
    snapshot_eq_iff sv.pending_lan next,
  ),
  ground (
    arith,
    snapshot_eq_iff next (lan_snapshot sv.shared.status),
    snapshot_eq_iff sv.pending_lan next,
  ),
)

-- A LAN that is detected twice in a row is served, with the address that was detected.
pub detect_lan_twice :
    (sv : Supervisor) (a : IfAddr) (iface : Bytes)
    → iface ≢ []
    → let sv' = detect_lan (found a iface) (detect_lan (found a iface) sv) in
      (lan_snapshot sv'.shared.status ≡ sighting a iface) × (sv'.shared.status.lan_addr ≡ v4 a.addr)
unfolding detect_lan
detect_lan_twice sv a [] named = absurd (named refl)
detect_lan_twice sv a (c ∷ s) named =
    let lan = sighting a (c ∷ s) in
    found_lan_settles lan (v4 a.addr) (detect_lan (found a (c ∷ s)) sv) refl
      (found_lan_once lan (v4 a.addr) sv refl)

-- Our own address lies in the LAN subnet, once there is a LAN.
abbrev pub IsInside : State → Type 0
IsInside st = (is_empty st.lan_interface || contains_addr st.lan_subnet st.lan_addr) ≡ true

found_lan-IsInside :
    (next : LanSnapshot) (addr : Addr) (sv : Supervisor)
    → contains_addr next.subnet addr ≡ true
    → IsInside sv.shared.status
    → IsInside (found_lan (lan_snapshot sv.shared.status) next addr sv).shared.status
unfolding found_lan confirm_lan apply_lan keep_lan lan_snapshot
found_lan-IsInside next addr sv inside h =
    ground (arith, snapshot_eq_iff next (lan_snapshot sv.shared.status))

sighting_inside : (a : IfAddr) → contains_addr (masked (prefix a.addr a.bits)) (v4 a.addr) ≡ true
sighting_inside a =
    contains_addr-masked (prefix a.addr a.bits) (v4 a.addr) ∙ (unfold contains_addr in ground arith)

-- Whatever is detected, our own address stays inside the LAN subnet.
pub detect_lan-IsInside :
    (sv : Supervisor) (d : Detected)
    → IsInside sv.shared.status
    → IsInside (detect_lan d sv).shared.status
unfolding detect_lan
detect_lan-IsInside sv (found a iface) h =
    found_lan-IsInside (sighting a iface) (v4 a.addr) sv (sighting_inside a) h
detect_lan-IsInside sv no_lan h = h
detect_lan-IsInside sv failed h = h
