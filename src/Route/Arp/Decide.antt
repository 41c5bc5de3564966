-- ===== src/Route/Arp/Decide.antt =====
-- When `DecidePin` adopts the kernel's address, and when it pins again.
use cisco_socks_server.Prelude.{
  false, Option, none, some, Bytes, [], ◌∷◌, ◌≡◌, ◌≢◌, refl, ◌↔◌, arith, str_eq_iff,
}
use cisco_socks_server.Route.Arp.{ArpEntry, pin_adopt, pin_repin, decide_pin, same_mac}

-- The client resolves on the LAN interface.
abbrev pub OnLan : Option ArpEntry → Bytes → Type 0
OnLan found iface = (e : ArpEntry) × (found ≡ some e) × (e.iface ≡ iface)

-- The address is adopted exactly when the client resolves on the LAN interface with another one
-- than the caller's.
pub decide_pin_adopt_iff :
    (found : Option ArpEntry) (want_mac iface : Bytes)
    → (decide_pin found want_mac iface ≡ pin_adopt)
      ↔ ((e : ArpEntry) × (found ≡ some e) × (e.iface ≡ iface) × (same_mac e.mac want_mac ≡ false))
unfolding decide_pin
decide_pin_adopt_iff none want_mac iface = (λ h. ground arith, λ (e, h, _, _). cc)
decide_pin_adopt_iff (some entry) want_mac iface = (
  λ h. (entry, refl, ground (arith, str_eq_iff entry.iface iface), ground arith),
  λ (e, h, on, other). ground (arith, str_eq_iff entry.iface iface),
)

-- ARP is written exactly when the caller knows an address and the client does not resolve on the
-- LAN interface.
pub decide_pin_repin_iff :
    (found : Option ArpEntry) (want_mac iface : Bytes)
    → (decide_pin found want_mac iface ≡ pin_repin) ↔ ((want_mac ≢ []) × ¬ OnLan found iface)
unfolding decide_pin
decide_pin_repin_iff none [] iface = (λ h. cc, λ (ne, off). absurd (ne refl))
decide_pin_repin_iff none (c ∷ s) iface = (λ h. (λ e. cc, λ (e, h', _). cc), λ _. refl)
decide_pin_repin_iff (some entry) [] iface = (λ h. ground arith, λ (ne, off). absurd (ne refl))
decide_pin_repin_iff (some entry) (c ∷ s) iface = (
  λ h. (λ e. cc, λ (e, found, on). ground (arith, str_eq_iff entry.iface iface)),
  λ (ne, off).
      let away : entry.iface ≢ iface = λ on. off (entry, refl, on) in
      ground (arith, str_eq_iff entry.iface iface),
)
