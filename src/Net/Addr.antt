-- ===== src/Net/Addr.antt =====
-- `netip.Addr` and `netip.Prefix`. An IPv4 address is its 32-bit value. The text form of an IPv6
-- address is a parameter, since no address that the program pins or serves has one.
pub mod Text
pub mod Subnet
use cisco_socks_server.Prelude.{
  ℕ, ◌+◌, ◌-◌, ◌*◌, ◌/◌, ◌%◌, ◌^◌, Bool, true, false, ◌&&◌, ◌||◌, List, [], ◌∷◌, ◌++◌, Option, none,
  some, Bytes, bytes, ◌==◌, leb, ltb, if◌then◌else◌, ◌>>=◌, str_eq,
}
use cisco_socks_server.Strings.{join, split}

pub data Addr : Type 0 where
  no_addr : Addr
  v4 : ℕ → Addr
  v6 : ℕ → Bytes → Addr

-- Reading and printing of IPv6 addresses, with their zones.
pub record V6Text : Type 0 where
  pub read : Bytes → Option (ℕ × Bytes)
  pub print : ℕ → Bytes → Bytes

-- `a == b` on addresses.
abbrev pub addr_eq : Addr → Addr → Bool
addr_eq no_addr no_addr = true
addr_eq (v4 a) (v4 b) = a == b
addr_eq (v6 a z) (v6 b y) = (a == b) && str_eq z y
addr_eq _ _ = false

-- The four octets, first to last.
abbrev pub octet : ℕ → ℕ → ℕ
octet i a = a / 2 ^ (24 - 8 * i) % 256

unfoldable pub print_decimal : ℕ → Bytes
print_decimal x =
    if ltb x 10
    then (b'0' + x) ∷ []
    else if ltb x 100
    then (b'0' + x / 10) ∷ (b'0' + x % 10) ∷ []
    else (b'0' + x / 100) ∷ (b'0' + x / 10 % 10) ∷ (b'0' + x % 10) ∷ []

unfoldable pub print_v4 : ℕ → Bytes
print_v4 a =
    join
      (print_decimal (octet 0 a)
        ∷ print_decimal (octet 1 a)
        ∷ print_decimal (octet 2 a)
        ∷ print_decimal (octet 3 a)
        ∷ [])
      b'.'

-- One field of a dotted address; the flag says that it has a digit already.
unfoldable pub read_field : ℕ → Bool → Bytes → Option ℕ
read_field value started [] = if started then some value else none
read_field value started (c ∷ s) =
    let next = value * 10 + (c - b'0') in
    let rest = read_field next true s in
    if ltb c b'0' || ltb b'9' c
    then none
    else if started && (value == 0)
    then none
    else if ltb 255 next
    then none
    else rest

unfoldable pub read_fields : List Bytes → Option ℕ
read_fields (p ∷ q ∷ r ∷ s ∷ []) = do
  a ← read_field 0 false p
  b ← read_field 0 false q
  c ← read_field 0 false r
  d ← read_field 0 false s
  some (a * 2 ^ 24 + b * 2 ^ 16 + c * 2 ^ 8 + d)
read_fields _ = none

-- `parseIPv4`
unfoldable pub read_v4 : Bytes → Option ℕ
read_v4 s = read_fields (split s b'.')

module _ ⦃t : V6Text⦄ where
  abbrev as_v6 : Option (ℕ × Bytes) → Option Addr
  as_v6 none = none
  as_v6 (some (a, z)) = some (v6 a z)

  -- The first of `.`, `:` and `%` tells the form.
  parse_from : Bytes → Bytes → Option Addr
  parse_from text [] = none
  parse_from text (c ∷ s) = elim (c == b'.') [
    | true ↦ read_v4 text >>= λ a. some (v4 a)
    | false ↦
        if c == b':' then as_v6 (t.read text) else if c == b'%' then none else parse_from text s
  ]

  -- `netip.ParseAddr`
  unfoldable pub parse_addr : Bytes → Option Addr
  unfolding parse_from
  parse_addr s = parse_from s s

  -- `addr.String()`
  abbrev pub print_addr : Addr → Bytes
  print_addr no_addr = bytes "invalid IP"
  print_addr (v4 a) = print_v4 a
  print_addr (v6 a z) = t.print a z

abbrev pub is_v4 : Addr → Bool
is_v4 (v4 a) = true
is_v4 _ = false

-- `IsPrivate`, `IsLoopback` and `IsLinkLocalUnicast` of an IPv4 address.
abbrev pub is_private : ℕ → Bool
is_private a = (a / 2 ^ 24 == 10) || (a / 2 ^ 20 == 172 * 16 + 1) || (a / 2 ^ 16 == 192 * 256 + 168)

abbrev pub is_loopback : ℕ → Bool
is_loopback a = a / 2 ^ 24 == 127

abbrev pub is_link_local : ℕ → Bool
is_link_local a = a / 2 ^ 16 == 169 * 256 + 254

-- The prefixes that the program makes are IPv4 ones; the other is the zero value.
pub data Prefix : Type 0 where
  no_prefix : Prefix
  prefix : ℕ → ℕ → Prefix

abbrev pub prefix_eq : Prefix → Prefix → Bool
prefix_eq no_prefix no_prefix = true
prefix_eq (prefix a n) (prefix b m) = (a == b) && (n == m)
prefix_eq _ _ = false

-- `p.Addr()`
abbrev pub prefix_addr : Prefix → Addr
prefix_addr no_prefix = no_addr
prefix_addr (prefix a n) = v4 a

-- `p.Masked()`
unfoldable pub masked : Prefix → Prefix
masked no_prefix = no_prefix
masked (prefix a n) = prefix (a / 2 ^ (32 - n) * 2 ^ (32 - n)) n

-- `p.Contains(addr)`
unfoldable pub contains_addr : Prefix → Addr → Bool
contains_addr (prefix a n) (v4 b) = a / 2 ^ (32 - n) == b / 2 ^ (32 - n)
contains_addr _ _ = false
