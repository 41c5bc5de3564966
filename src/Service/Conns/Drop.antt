-- ===== src/Service/Conns/Drop.antt =====
-- Which connections are dropped.
use cisco_socks_server.Prelude.{
  ℕ, Bool, true, false, List, [], ◌∷◌, ◌++◌, Option, some, Bytes, length, ◌≡◌, refl, ◌↔◌, ◌⊎◌, inl,
  inr, arith, str_eq, str_eq_iff, listed, Option-cases, Bool-cases, All, lookup, Distinct,
}
use mathlib.Core.List.{Perm, perm_middle}
use mathlib.Core.List.Perm
use cisco_socks_server.Net.Addr.{Addr, V6Text, print_addr}
use cisco_socks_server.Service.Clients.{Registry, expire}
use cisco_socks_server.Service.Clients.Expiry.{expire_keeps, expire_reports_iff}
use cisco_socks_server.Service.Conns.{
  Tracker, ids, accepted_on, close_lan, add_ip, remote_of, remote_ips, remove, delete,
}

abbrev pub IsLan : ℕ × Bool → Type 0
IsLan (c, lan) = lan ≡ true

abbrev pub IsLocal : ℕ × Bool → Type 0
IsLocal (c, lan) = lan ≡ false

accepted_on-IsLan : (cs : List (ℕ × Bool)) → All IsLan (accepted_on true cs)
unfolding accepted_on
accepted_on-IsLan [] = tt
accepted_on-IsLan ((c, true) ∷ cs) = (refl, accepted_on-IsLan cs)
accepted_on-IsLan ((c, false) ∷ cs) = accepted_on-IsLan cs

accepted_on-IsLocal : (cs : List (ℕ × Bool)) → All IsLocal (accepted_on false cs)
unfolding accepted_on
accepted_on-IsLocal [] = tt
accepted_on-IsLocal ((c, true) ∷ cs) = accepted_on-IsLocal cs
accepted_on-IsLocal ((c, false) ∷ cs) = (refl, accepted_on-IsLocal cs)

accepted_on-perm : (cs : List (ℕ × Bool)) → Perm cs (accepted_on true cs ++ accepted_on false cs)
unfolding accepted_on
accepted_on-perm [] = Perm.nil
accepted_on-perm ((c, true) ∷ cs) = Perm.cons (c, true) (accepted_on-perm cs)
accepted_on-perm ((c, false) ∷ cs) =
    Perm.trans (Perm.cons (c, false) (accepted_on-perm cs))
      (Perm.symm (perm_middle (accepted_on true cs) (accepted_on false cs)))

-- After a change of network no connection of the LAN listener is left, no other is touched, and
-- each connection is either kept or among those that are closed and counted.
pub close_lan_lem :
    (t : Tracker)
    → All IsLocal (close_lan t).0.conns
      × ((gone : List (ℕ × Bool)) × All IsLan gone
          × Perm t.conns (gone ++ (close_lan t).0.conns)
          × ((close_lan t).0.closed ≡ t.closed ++ ids gone)
          × ((close_lan t).1 ≡ length gone))
unfolding close_lan
close_lan_lem t = (
  accepted_on-IsLocal t.conns,
  (accepted_on true t.conns, accepted_on-IsLan t.conns, accepted_on-perm t.conns, refl, refl),
)

-- Some live connection has this peer.
abbrev pub HasPeer : ⦃t : V6Text⦄ → (ℕ → Option Addr) → List (ℕ × Bool) → Bytes → Type 0
HasPeer peer [] ip = ⊥
HasPeer peer ((c, lan) ∷ cs) ip =
    ((a : Addr) × (peer c ≡ some a) × (print_addr a ≡ ip)) ⊎ HasPeer peer cs ip

module _ ⦃v : V6Text⦄ (peer : ℕ → Option Addr) (ip : Bytes) where
  listed-add_ip :
      (c : ℕ) (ips : List Bytes) (P : Type 0)
      → (listed ips ip ≡ true) ↔ P
      → (listed (add_ip (peer c) ips) ip ≡ true)
        ↔ (((a : Addr) × (peer c ≡ some a) × (print_addr a ≡ ip)) ⊎ P)
  unfolding add_ip listed
  listed-add_ip c ips P rest = elim (Option-cases (peer c)) [
    | inl e ↦ (
      λ h. inr (rest.0 (rw (e, add_ip) at h)),
      λ h.
          rw (e, add_ip)
            (elim h [ inl (a, e', _) ↦ absurd (ground (arith, e, e')) | inr p ↦ rest.1 p ]),
    )
    | inr (a, e) ↦ (
      λ h. elim (Bool-cases (str_eq (print_addr a) ip)) [
        | inl same ↦ inl (a, e, (str_eq_iff _ ip).0 same)
        | inr other ↦ inr (rest.0 (rw other at (rw (e, add_ip, listed) at h)))
      ],
      λ h.
          rw (e, add_ip, listed)
            (elim h [
              | inl (b, e', here) ↦ ground (arith, e, e', here, str_eq_iff (print_addr a) ip)
              | inr p ↦ ground (arith, rest.1 p)
            ]),
    )
  ]

  listed-remote_of :
      (cs : List (ℕ × Bool)) → (listed (remote_of peer cs) ip ≡ true) ↔ HasPeer peer cs ip
  unfolding remote_of
  listed-remote_of [] = (λ h. absurd (unfold listed in (cc)), λ h. absurd h)
  listed-remote_of ((c, lan) ∷ cs) =
      listed-add_ip c (remote_of peer cs) (HasPeer peer cs ip) (listed-remote_of cs)

  -- The live peers are exactly those of the connections that are open.
  pub remote_ips_iff :
      (t : Tracker) → (listed (remote_ips peer t) ip ≡ true) ↔ HasPeer peer t.conns ip
  unfolding remote_ips
  remote_ips_iff t = listed-remote_of t.conns

-- A client with an open connection survives every expiry, however long ago it was last seen.
pub expire-HasPeer :
    ⦃v : V6Text⦄
    → (peer : ℕ → Option Addr) (ip : Bytes) (t : Tracker) (r : Registry) (now ttl : ℕ) → Distinct r
    → HasPeer peer t.conns ip
    → lookup ip (expire r now ttl (listed (remote_ips peer t))).0 ≡ lookup ip r
expire-HasPeer peer ip t r now ttl d open_conn =
    let live = listed (remote_ips peer t) in
    let is_live = (remote_ips_iff peer ip t).1 open_conn in
    let kept = expire_keeps now ttl live r ip d in
    elim (Bool-cases (listed (expire r now ttl live).1 ip)) [
      | inl out ↦
          let (e, found, st, idle, old) = (expire_reports_iff now ttl live r ip d).0 out in
          absurd (ground (arith, is_live, idle))
      | inr stay ↦ rw stay at kept
    ]

pub remove-empty : (c : ℕ) (t : Tracker) → t.conns ≡ [] → (remove t c).conns ≡ []
unfolding remove delete
remove-empty c t h = rw h
