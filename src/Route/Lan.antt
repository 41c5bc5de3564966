-- ===== src/Route/Lan.antt =====
-- internal/utils/route/route.go: `DetectLAN` and what it calls. The interface table and the output
-- of `netstat` are arguments.
pub mod Pick
pub mod Usable
use cisco_socks_server.Prelude.{
  ℕ, ◌+◌, ◌-◌, ◌*◌, ◌^◌, Bool, true, false, not, ◌&&◌, ◌||◌, List, [], ◌∷◌, Option, none, some,
  Bytes, bytes, length, ◌==◌, ltb, if◌then◌else◌, is_empty, str_eq, ◌>>=◌, is_some,
}
use cisco_socks_server.Strings.{split, fields, has_prefix, cut_prefix}
use cisco_socks_server.Net.Addr.{is_private, is_loopback, is_link_local}

-- `net.IPNet`, by its bytes.
pub record IpNet : Type 0 where
  pub ip : List ℕ
  pub mask : List ℕ

-- `net.Addr` of an interface.
pub data IfaceAddr : Type 0 where
  ip_net : IpNet → IfaceAddr
  other_addr : IfaceAddr

-- `net.Interface`; its addresses may fail to be read.
pub record Interface : Type 0 where
  pub name : Bytes
  pub up : Bool
  pub loopback : Bool
  pub point_to_point : Bool
  pub addrs : Option (List IfaceAddr)

-- An IPv4 host address with its prefix length.
pub record IfAddr : Type 0 where
  pub addr : ℕ
  pub bits : ℕ

four_octets : List ℕ → Option ℕ
four_octets (a ∷ b ∷ c ∷ d ∷ []) = some (a * 2 ^ 24 + b * 2 ^ 16 + c * 2 ^ 8 + d)
four_octets _ = none

abbrev mapped_prefix : List ℕ
mapped_prefix = 0 ∷ 0 ∷ 0 ∷ 0 ∷ 0 ∷ 0 ∷ 0 ∷ 0 ∷ 0 ∷ 0 ∷ 0xff ∷ 0xff ∷ []

-- `ip.To4()`: four bytes, or sixteen that map an IPv4 address.
unfoldable pub to4 : List ℕ → Option ℕ
unfolding four_octets
to4 ip = if length ip == 4 then four_octets ip else cut_prefix ip mapped_prefix >>= four_octets

-- The ones that a byte other than 0xff begins with, if zeros follow them.
unfoldable pub byte_ones : ℕ → Option ℕ
byte_ones v =
    if v == 0x00
    then some 0
    else if v == 0x80
    then some 1
    else if v == 0xc0
    then some 2
    else if v == 0xe0
    then some 3
    else if v == 0xf0
    then some 4
    else if v == 0xf8
    then some 5
    else if v == 0xfc
    then some 6
    else if v == 0xfe
    then some 7
    else none

all_zero : List ℕ → Bool
all_zero [] = true
all_zero (v ∷ vs) = (v == 0) && all_zero vs

-- `simpleMaskLength`
unfoldable pub mask_ones : List ℕ → Option ℕ
unfolding byte_ones all_zero
mask_ones [] = some 0
mask_ones (v ∷ vs) =
    let more = mask_ones vs in
    if v == 0xff then more >>= (λ n. some (n + 8)) else (if all_zero vs then byte_ones v else none)

abbrev size_of_mask : Option ℕ → ℕ → ℕ × ℕ
size_of_mask none bits = (0, 0)
size_of_mask (some ones) bits = (ones, bits)

-- `mask.Size()`
unfoldable pub mask_size : List ℕ → ℕ × ℕ
mask_size mask = size_of_mask (mask_ones mask) (8 * length mask)

-- The prefix length of an IPv4 address whose mask has so many ones among so many bits.
unfoldable pub ipv4_bits : ℕ → ℕ → Option ℕ
ipv4_bits ones bits =
    if bits == 128
    then (if ltb ones 96 || ltb 32 (ones - 96) then none else some (ones - 96))
    else if ltb 32 ones
    then none
    else some ones

-- `ipv4Prefix`
unfoldable pub ipv4_prefix : IpNet → Option IfAddr
ipv4_prefix ipnet = do
  addr ← to4 ipnet.ip
  bits ← ipv4_bits (mask_size ipnet.mask).0 (mask_size ipnet.mask).1
  some (record { addr = addr; bits = bits })

-- The address that a loop over an interface's addresses stops at.
unfoldable pub first_addr : (ℕ → Bool) → List IfaceAddr → Option IfAddr
first_addr good [] = none
first_addr good (other_addr ∷ more) = first_addr good more
first_addr good (ip_net n ∷ more) =
    let rest = first_addr good more in
    elim (ipv4_prefix n) [ none ↦ rest | some a ↦ if good a.addr then some a else rest ]

-- `connectedPrefix`, for the interface that the name stands for.
unfoldable pub connected_prefix : Option Interface → Option IfAddr
connected_prefix ifi = do
  i ← ifi
  addrs ← i.addrs
  first_addr (λ a. not (is_loopback a || is_link_local a)) addrs

-- `lanCandidate`
pub record LanCandidate : Type 0 where
  pub ifaddr : IfAddr
  pub iface : Bytes

-- The first private address of an interface.
unfoldable pub private_candidate : Interface → Option LanCandidate
private_candidate i = do
  addrs ← i.addrs
  a ← first_addr is_private addrs
  some (record { ifaddr = a; iface = i.name })

-- The candidate that one interface gives.
unfoldable pub candidate : Interface → Option LanCandidate
candidate i =
    if not i.up || i.loopback || i.point_to_point || has_prefix i.name (bytes "utun")
    then none
    else private_candidate i

abbrev add_candidate : Option LanCandidate → List LanCandidate → List LanCandidate
add_candidate none cs = cs
add_candidate (some c) cs = c ∷ cs

-- `rfc1918Candidates`, for the interfaces of the host.
unfoldable pub rfc1918_candidates : List Interface → List LanCandidate
rfc1918_candidates [] = []
rfc1918_candidates (i ∷ is) = add_candidate (candidate i) (rfc1918_candidates is)

preferred : List LanCandidate → Bytes → LanCandidate → LanCandidate
preferred [] prefer first = first
preferred (c ∷ cs) prefer first =
    let rest = preferred cs prefer first in
    if not (is_empty prefer) && str_eq c.iface prefer then c else rest

-- `pickCandidate`
unfoldable pub pick_candidate : List LanCandidate → Bytes → Option LanCandidate
unfolding preferred
pick_candidate [] prefer = none
pick_candidate (c ∷ cs) prefer = some (preferred (c ∷ cs) prefer c)

-- The last of the fields of a line.
unfoldable pub last_field : Bytes → List Bytes → Bytes
last_field f [] = f
last_field f (g ∷ fs) = last_field g fs

-- The interface of a line that shows a default route outside a tunnel.
unfoldable pub default_netif : List Bytes → Option Bytes
default_netif (f ∷ g ∷ h ∷ i ∷ fs) =
    let netif = last_field i fs in
    if not (str_eq f (bytes "default"))
    then none
    else if has_prefix netif (bytes "utun") || has_prefix netif (bytes "lo") || is_empty netif
    then none
    else some netif
default_netif _ = none

first_netif : List Bytes → Option Bytes
first_netif [] = none
first_netif (line ∷ lines) =
    let rest = first_netif lines in
    elim (default_netif (fields line)) [ none ↦ rest | some netif ↦ some netif ]

-- `parseDefaultNonTunnel`; `none` is the empty name.
unfoldable pub parse_default_non_tunnel : Bytes → Option Bytes
unfolding first_netif
parse_default_non_tunnel output = first_netif (split output b'\n')

-- What `DetectLAN` reads of the host: the output of `netstat` unless it fails, interfaces by name,
-- and the list of interfaces unless it cannot be read.
pub record Host : Type 0 where
  pub netstat : Option Bytes
  pub by_name : Bytes → Option Interface
  pub interfaces : Option (List Interface)

-- The result of `DetectLAN`; `no_lan` is `ErrNoLANInterface`.
pub data Detected : Type 0 where
  found : IfAddr → Bytes → Detected
  no_lan failed : Detected

abbrev found_or : Detected → Option LanCandidate → Detected
found_or other none = other
found_or other (some c) = found c.ifaddr c.iface

-- The LAN by the default route.
unfoldable pub default_lan : Host → Option LanCandidate
default_lan host = do
  output ← host.netstat
  name ← parse_default_non_tunnel output
  ifaddr ← connected_prefix (host.by_name name)
  some (record { ifaddr = ifaddr; iface = name })

-- The LAN by the private addresses.
unfoldable pub fallback_lan : Option (List Interface) → Bytes → Detected
fallback_lan none prefer = failed
fallback_lan (some is) prefer = found_or no_lan (pick_candidate (rfc1918_candidates is) prefer)

-- `DetectLAN`
unfoldable pub detect_lan : Host → Bytes → Detected
detect_lan host prefer = found_or (fallback_lan host.interfaces prefer) (default_lan host)
