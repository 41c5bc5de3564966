-- ===== src/Route/Lan/Usable.antt =====
-- What `DetectLAN` finds can serve a LAN.
use cisco_socks_server.Prelude.{
  ℕ, ◌≤◌, Bool, true, false, not, ◌||◌, List, [], ◌∷◌, Option, none, some, Bytes, bytes, ◌≡◌, refl,
  ◌∙◌, ◌&&◌, subst, some_inj, arith, if_elim, str_eq, is_empty, Option-cases, inl, inr, >>=-eq-some,
  All,
}
use cisco_socks_server.Strings.{has_prefix, fields, split}
use cisco_socks_server.Net.Addr.{is_private, is_loopback, is_link_local}
use cisco_socks_server.Net.Addr.Subnet.{is_private-elsewhere}
use cisco_socks_server.Route.Lan.{
  IpNet, IfaceAddr, ip_net, other_addr, Interface, IfAddr, LanCandidate, Host, Detected, found,
  no_lan, to4, mask_size, ipv4_bits, ipv4_prefix, first_addr, connected_prefix, candidate,
  private_candidate, add_candidate, found_or, rfc1918_candidates, preferred, pick_candidate,
  default_netif, first_netif, parse_default_non_tunnel, default_lan, fallback_lan, detect_lan,
}

-- An address that a LAN client can reach.
pub record IsUsableAddr (a : IfAddr) : Type 0 where
  pub fits : a.bits ≤ 32
  pub not_loopback : is_loopback a.addr ≡ false
  pub not_link_local : is_link_local a.addr ≡ false

-- Such an address on an interface whose name does not begin with utun.
pub record IsUsable (c : LanCandidate) : Type 0 where
  pub addr_ok : IsUsableAddr c.ifaddr
  pub not_utun : has_prefix c.iface (bytes "utun") ≡ false

ipv4_bits-le : (ones bits : ℕ) {n : ℕ} → ipv4_bits ones bits ≡ some n → n ≤ 32
unfolding ipv4_bits
ipv4_bits-le ones bits h = ground arith

ipv4_prefix_fits : (n : IpNet) {a : IfAddr} → ipv4_prefix n ≡ some a → a.bits ≤ 32
unfolding ipv4_prefix
ipv4_prefix_fits n {a} h =
    let (x, ex, h') = >>=-eq-some (to4 n.ip) _ h in
    let (b, eb, h'') = >>=-eq-some (ipv4_bits (mask_size n.mask).0 (mask_size n.mask).1) _ h' in
    ground (arith, ipv4_bits-le (mask_size n.mask).0 (mask_size n.mask).1 {n = b} eb)

first_addr_good :
    (good : ℕ → Bool) (addrs : List IfaceAddr) {a : IfAddr}
    → first_addr good addrs ≡ some a
    → (good a.addr ≡ true) × (a.bits ≤ 32)
unfolding first_addr
first_addr_good good [] h = cc
first_addr_good good (other_addr ∷ more) h = first_addr_good good more h
first_addr_good good (ip_net n ∷ more) {a} h = elim (Option-cases (ipv4_prefix n)) [
  | inl e ↦ first_addr_good good more (rw (e, first_addr) at h)
  | inr (x, e) ↦ ground (arith, ipv4_prefix_fits n {a = x} e, first_addr_good good more {a = a}, e)
]

connected_prefix_usable :
    (ifi : Option Interface) {a : IfAddr} → connected_prefix ifi ≡ some a → IsUsableAddr a
unfolding connected_prefix
connected_prefix_usable ifi {a} h =
    let (i, ei, h') = >>=-eq-some ifi _ h in
    let (addrs, ea, h'') = >>=-eq-some i.addrs _ h' in
    let (good, fits) = first_addr_good _ addrs {a = a} h'' in
    record { fits = fits; not_loopback = ground arith; not_link_local = ground arith }

default_netif_not_utun :
    (fs : List Bytes) {name : Bytes}
    → default_netif fs ≡ some name
    → has_prefix name (bytes "utun") ≡ false
unfolding default_netif
default_netif_not_utun [] h = cc
default_netif_not_utun (f ∷ []) h = cc
default_netif_not_utun (f ∷ g ∷ []) h = cc
default_netif_not_utun (f ∷ g ∷ k ∷ []) h = cc
default_netif_not_utun (f ∷ g ∷ k ∷ i ∷ fs) h = ground arith

first_netif_not_utun :
    (lines : List Bytes) {name : Bytes}
    → first_netif lines ≡ some name
    → has_prefix name (bytes "utun") ≡ false
unfolding first_netif
first_netif_not_utun [] h = cc
first_netif_not_utun (line ∷ lines) {name} h = elim (Option-cases (default_netif (fields line))) [
  | inl e ↦ first_netif_not_utun lines (rw (e, first_netif) at h)
  | inr (n, e) ↦ default_netif_not_utun (fields line) (e ∙ (rw (e, first_netif) at h))
]

default_lan-IsUsable : (host : Host) {c : LanCandidate} → default_lan host ≡ some c → IsUsable c
unfolding default_lan
default_lan-IsUsable host {c} h =
    let (out, eo, h1) = >>=-eq-some host.netstat _ h in
    let (name, en, h2) = >>=-eq-some (parse_default_non_tunnel out) _ h1 in
    let (a, ea, h3) = >>=-eq-some (connected_prefix (host.by_name name)) _ h2 in
    let usable = connected_prefix_usable (host.by_name name) ea in
    let name_ok : has_prefix name (bytes "utun") ≡ false =
      unfold parse_default_non_tunnel in first_netif_not_utun (split out b'\n') en in
    subst IsUsable (some_inj h3) (record { addr_ok = usable; not_utun = name_ok })

private_candidate-IsUsable :
    (i : Interface) {c : LanCandidate}
    → has_prefix i.name (bytes "utun") ≡ false
    → private_candidate i ≡ some c
    → IsUsable c
unfolding private_candidate
private_candidate-IsUsable i {c} pass h =
    let (addrs, ea, h1) = >>=-eq-some i.addrs _ h in
    let (a, e, h2) = >>=-eq-some (first_addr is_private addrs) _ h1 in
    let (good, fits) = first_addr_good is_private addrs e in
    let (lo, ll) = is_private-elsewhere a.addr good in
    subst IsUsable (some_inj h2) (record {
      addr_ok = record { fits = fits; not_loopback = lo; not_link_local = ll };
      not_utun = pass;
    })

candidate-IsUsable : (i : Interface) {c : LanCandidate} → candidate i ≡ some c → IsUsable c
unfolding candidate
candidate-IsUsable i {c} =
    if_elim (λ o. o ≡ some c → IsUsable c)
      (not i.up || i.loopback || i.point_to_point || has_prefix i.name (bytes "utun")) none
      (private_candidate i) (λ _ h. cc) λ pass. private_candidate-IsUsable i (ground arith)

add_candidate-IsUsable :
    (o : Option LanCandidate) (cs : List LanCandidate)
    → ((c : LanCandidate) → o ≡ some c → IsUsable c)
    → All IsUsable cs
    → All IsUsable (add_candidate o cs)
add_candidate-IsUsable none cs h hs = hs
add_candidate-IsUsable (some c) cs h hs = (h c refl, hs)

rfc1918_candidates-IsUsable : (is : List Interface) → All IsUsable (rfc1918_candidates is)
unfolding rfc1918_candidates
rfc1918_candidates-IsUsable [] = tt
rfc1918_candidates-IsUsable (i ∷ is) =
    add_candidate-IsUsable (candidate i) (rfc1918_candidates is) (λ c. candidate-IsUsable i)
      (rfc1918_candidates-IsUsable is)

preferred_All :
    (P : LanCandidate → Type 0) (cs : List LanCandidate) (prefer : Bytes) (first : LanCandidate)
    → All P cs
    → P first
    → P (preferred cs prefer first)
unfolding preferred
preferred_All P [] prefer first h p = p
preferred_All P (c ∷ cs) prefer first h p =
    if_elim P (not (is_empty prefer) && str_eq c.iface prefer) c (preferred cs prefer first)
      (λ _. h.0) λ _. preferred_All P cs prefer first h.1 p

pub pick_candidate_All :
    (P : LanCandidate → Type 0) (cs : List LanCandidate) (prefer : Bytes) {c : LanCandidate}
    → All P cs
    → pick_candidate cs prefer ≡ some c
    → P c
unfolding pick_candidate
pick_candidate_All P [] prefer h e = absurd (cc e)
pick_candidate_All P (c ∷ cs) prefer h e =
    subst P (some_inj e) (preferred_All P (c ∷ cs) prefer c h h.0)

-- The LAN that a result names.
abbrev pub IsUsableLan : Detected → Type 0
IsUsableLan (found a name) = IsUsable (record { ifaddr = a; iface = name })
IsUsableLan _ = Unit

found_or_usable :
    (other : Detected) (o : Option LanCandidate)
    → IsUsableLan other
    → ((c : LanCandidate) → o ≡ some c → IsUsable c)
    → IsUsableLan (found_or other o)
found_or_usable other none ho h = ho
found_or_usable other (some c) ho h = h c refl

fallback_lan_usable :
    (is : Option (List Interface)) (prefer : Bytes) → IsUsableLan (fallback_lan is prefer)
unfolding fallback_lan
fallback_lan_usable none prefer = tt
fallback_lan_usable (some is) prefer =
    found_or_usable no_lan (pick_candidate (rfc1918_candidates is) prefer) tt λ c.
      pick_candidate_All IsUsable (rfc1918_candidates is) prefer (rfc1918_candidates-IsUsable is)

-- Whichever way it is found, the LAN has an IPv4 address with a prefix of at most 32 bits that is
-- neither loopback nor link-local, and the name of its interface does not begin with utun.
pub detect_lan_usable : (host : Host) (prefer : Bytes) → IsUsableLan (detect_lan host prefer)
unfolding detect_lan
detect_lan_usable host prefer =
    found_or_usable _ (default_lan host) (fallback_lan_usable host.interfaces prefer)
      λ c. default_lan-IsUsable host
