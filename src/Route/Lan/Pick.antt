-- ===== src/Route/Lan/Pick.antt =====
-- The interface in use wins among the candidates while it still qualifies.
use cisco_socks_server.Prelude.{
  true, false, not, ◌||◌, List, [], ◌∷◌, none, some, bytes, Bytes, if_elim, >>=-eq-some, ◌>>=◌,
  some_inj, ap, subst, ◌∙◌, Option-cases, All, ◌≡◌, ◌≢◌, refl, arith, str_eq_iff, inl, inr, ◌⊎◌,
}
use cisco_socks_server.Strings.{has_prefix}
use cisco_socks_server.Net.Addr.{is_private}
use cisco_socks_server.Route.Lan.Usable.{pick_candidate_All}
use cisco_socks_server.Route.Lan.{
  IfAddr, IfaceAddr, first_addr, candidate, private_candidate, LanCandidate, Interface, Host, found,
  preferred, pick_candidate, rfc1918_candidates, default_lan, fallback_lan, detect_lan,
}

-- The interface is one of the candidates'.
abbrev pub Offers : List LanCandidate → Bytes → Type 0
Offers [] name = ⊥
Offers (c ∷ cs) name = (c.iface ≡ name) ⊎ Offers cs name

preferred_iface :
    (cs : List LanCandidate) (prefer : Bytes) (first : LanCandidate)
    → prefer ≢ []
    → Offers cs prefer
    → (preferred cs prefer first).iface ≡ prefer
unfolding preferred
preferred_iface [] prefer first ne o = elim o [ ]
preferred_iface (c ∷ cs) [] first ne o = absurd (ne refl)
preferred_iface (c ∷ cs) (b ∷ s) first ne (inl e) = ground (arith, str_eq_iff c.iface (b ∷ s))
preferred_iface (c ∷ cs) (b ∷ s) first ne (inr o) =
    ground (arith, str_eq_iff c.iface (b ∷ s), preferred_iface cs (b ∷ s) first ne o)

pick_candidate_iface :
    (cs : List LanCandidate) (prefer : Bytes)
    → prefer ≢ []
    → Offers cs prefer
    → (c : LanCandidate) × (pick_candidate cs prefer ≡ some c) × (c.iface ≡ prefer)
unfolding pick_candidate
pick_candidate_iface [] prefer ne o = elim o [ ]
pick_candidate_iface (c ∷ cs) prefer ne o =
    (preferred (c ∷ cs) prefer c, refl, preferred_iface (c ∷ cs) prefer c ne o)

-- An interface that is up, neither loopback nor point-to-point nor named like a tunnel, with this
-- private IPv4 address.
pub record Qualifies (i : Interface) (a : IfAddr) : Type 0 where
  pub is_up : i.up ≡ true
  pub no_loopback : i.loopback ≡ false
  pub no_link : i.point_to_point ≡ false
  pub no_tunnel : has_prefix i.name (bytes "utun") ≡ false
  pub listed :
      (addrs : List IfaceAddr) × (i.addrs ≡ some addrs) × (first_addr is_private addrs ≡ some a)

-- One of the interfaces qualifies, with this name and address.
abbrev pub HasLan : List Interface → Bytes → IfAddr → Type 0
HasLan [] name a = ⊥
HasLan (i ∷ is) name a = (Qualifies i a × (i.name ≡ name)) ⊎ HasLan is name a

candidate-Qualifies :
    (i : Interface) {c : LanCandidate}
    → candidate i ≡ some c
    → Qualifies i c.ifaddr × (i.name ≡ c.iface)
unfolding candidate private_candidate
candidate-Qualifies i {c} =
    if_elim (λ o. o ≡ some c → Qualifies i c.ifaddr × (i.name ≡ c.iface))
      (not i.up || i.loopback || i.point_to_point || has_prefix i.name (bytes "utun")) none _
      (λ _ h. cc)
      λ pass h.
        let (addrs, ea, h1) = >>=-eq-some i.addrs _ h in
        let (a, e, h2) = >>=-eq-some (first_addr is_private addrs) _ h1 in
        let same = some_inj h2 in
        (
          record {
            is_up = ground arith;
            no_loopback = ground arith;
            no_link = ground arith;
            no_tunnel = ground arith;
            listed = (addrs, ea, e ∙ ap (λ (k : LanCandidate). some k.ifaddr) same);
          },
          ap (λ (k : LanCandidate). k.iface) same,
        )

Qualifies-candidate :
    (i : Interface) (a : IfAddr)
    → Qualifies i a
    → candidate i ≡ some (record { ifaddr = a; iface = i.name })
unfolding candidate private_candidate
Qualifies-candidate i a q =
    let (addrs, ea, e) = q.listed in
    rw (q.is_up, q.no_loopback, q.no_link, q.no_tunnel, ea, ◌>>=◌, e, ◌>>=◌) refl

HasLan-Offers :
    (is : List Interface) (name : Bytes) (a : IfAddr)
    → HasLan is name a
    → Offers (rfc1918_candidates is) name
unfolding rfc1918_candidates
HasLan-Offers [] name a h = h
HasLan-Offers (i ∷ is) name a (inl (q, named)) = rw (Qualifies-candidate i a q) (inl named)
HasLan-Offers (i ∷ is) name a (inr h) = elim (Option-cases (candidate i)) [
  | inl e ↦ rw e (HasLan-Offers is name a h)
  | inr (c, e) ↦ rw e (inr (HasLan-Offers is name a h))
]

-- The candidate is from one of the interfaces.
abbrev IsFromOne : List Interface → LanCandidate → Type 0
IsFromOne is c = HasLan is c.iface c.ifaddr

All-weaken :
    (i : Interface) (is : List Interface) (cs : List LanCandidate)
    → All (IsFromOne is) cs
    → All (IsFromOne (i ∷ is)) cs
All-weaken i is [] h = tt
All-weaken i is (c ∷ cs) h = (inr h.0, All-weaken i is cs h.1)

rfc1918_candidates-IsFromOne : (is : List Interface) → All (IsFromOne is) (rfc1918_candidates is)
unfolding rfc1918_candidates
rfc1918_candidates-IsFromOne [] = tt
rfc1918_candidates-IsFromOne (i ∷ is) =
    let rest = All-weaken i is (rfc1918_candidates is) (rfc1918_candidates-IsFromOne is) in
    elim (Option-cases (candidate i)) [
      | inl e ↦ rw e rest
      | inr (c, e) ↦ rw e (inl (candidate-Qualifies i e), rest)
    ]

-- While the default route is gone, the LAN stays on the interface in use as long as one of that
-- name is up, is neither loopback nor point-to-point nor named like a tunnel, and has a private
-- address; and the address of the LAN is the first private one of such an interface of that name.
pub detect_lan_sticky :
    (host : Host) (is : List Interface) (prefer : Bytes) (a : IfAddr)
    → default_lan host ≡ none
    → host.interfaces ≡ some is
    → prefer ≢ []
    → HasLan is prefer a
    → (b : IfAddr) × (detect_lan host prefer ≡ found b prefer) × HasLan is prefer b
unfolding detect_lan fallback_lan
detect_lan_sticky host is prefer a gone listed ne o =
    let offers = HasLan-Offers is prefer a o in
    let (c, e, same) = pick_candidate_iface (rfc1918_candidates is) prefer ne offers in
    let from =
      pick_candidate_All (IsFromOne is) (rfc1918_candidates is) prefer
        (rfc1918_candidates-IsFromOne is) e in
    (
      c.ifaddr,
      subst (λ n. detect_lan host prefer ≡ found c.ifaddr n) same (ground (arith, e)),
      subst (λ n. HasLan is n c.ifaddr) same from,
    )
