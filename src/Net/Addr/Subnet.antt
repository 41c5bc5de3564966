-- ===== src/Net/Addr/Subnet.antt =====
-- Prefixes: a host address lies in its masked prefix, and the private ranges are neither loopback
-- nor link-local.
use native.Mathlib.Nat.{mul-div_cancel, one-le-pow}
use cisco_socks_server.Prelude.{ℕ, ◌/◌, ◌^◌, ◌-◌, true, false, ◌≡◌, refl, arith}
use cisco_socks_server.Net.Addr.{
  Addr, v4, v6, no_addr, Prefix, prefix, no_prefix, masked, contains_addr, is_private, is_loopback,
  is_link_local,
}

-- Masking keeps the set of addresses of a prefix.
pub contains_addr-masked : (p : Prefix) (a : Addr) → contains_addr (masked p) a ≡ contains_addr p a
unfolding contains_addr masked
contains_addr-masked no_prefix a = refl
contains_addr-masked (prefix b n) no_addr = refl
contains_addr-masked (prefix b n) (v6 a z) = refl
contains_addr-masked (prefix b n) (v4 a) =
    rw (mul-div_cancel (b / 2 ^ (32 - n)) (one-le-pow (32 - n) 2 (omega arith)))

pub is_private-elsewhere :
    (a : ℕ) → is_private a ≡ true → (is_loopback a ≡ false) × (is_link_local a ≡ false)
is_private-elsewhere a h = ground arith
