-- ===== src/Config/Mapped.antt =====
-- An IPv4 address mapped into IPv6 passes `validate`, and the pinner never serves it.
use cisco_socks_server.Prelude.{ℕ, ◌/◌, ◌^◌, true, false, [], some, Bytes, ◌≡◌, refl}
use cisco_socks_server.Net.Addr.{v6, Prefix, prefix, no_prefix, V6Text, parse_addr, contains_addr}
use cisco_socks_server.Config.{parse_ip, no_zone, has_to4, good_client_ip}
use cisco_socks_server.Service.State.{State}
use cisco_socks_server.Service.Pinner.{skipped}

module _ ⦃t : V6Text⦄ where
  outside_v6 : (p : Prefix) (a : ℕ) (z : Bytes) → contains_addr p (v6 a z) ≡ false
  unfolding contains_addr
  outside_v6 no_prefix a z = refl
  outside_v6 (prefix b n) a z = refl

  -- A client of the configuration whose address is an IPv4 address mapped into IPv6, with no zone,
  -- is accepted, and whatever the LAN is, the pinner leaves the client alone.
  pub mapped_client_skipped :
      (ip : Bytes) (a : ℕ) (state : State)
      → parse_addr ip ≡ some (v6 a [])
      → a / 2 ^ 32 ≡ 0xffff
      → (good_client_ip ip ≡ true) × (skipped state ip ≡ true)
  unfolding good_client_ip parse_ip no_zone has_to4 skipped
  mapped_client_skipped ip a state e mapped =
      (rw (e, mapped), rw (e, outside_v6 state.lan_subnet a []))
