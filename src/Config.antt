-- ===== src/Config.antt =====
-- cmd/config.go: `Config`, `validate` and `serviceOptions`. Reading the file and the flags is the
-- system's, and the YAML a library's.
pub mod Validate
pub mod Mapped
pub mod Load
use cisco_socks_server.Prelude.{
  ℕ, suc, ◌+◌, ◌/◌, ◌^◌, Bool, true, false, not, ◌&&◌, ◌||◌, List, [], ◌∷◌, Option, none, some,
  Bytes, if◌then◌else◌, is_empty, is_some, ◌==◌, ◌>>=◌, keep_if, bool_ne,
}
use cisco_socks_server.Net.Addr.{Addr, no_addr, v4, v6, V6Text, parse_addr}
use cisco_socks_server.Net.Mac.{parse_mac}
use cisco_socks_server.Service.State.{LanClient, Options}

-- `Config`
pub record Config : Type 0 where
  pub cisco_user : Bytes
  pub cisco_password : Bytes
  pub cisco_profile : Bytes
  pub socks_user : Bytes
  pub socks_password : Bytes
  pub dns_servers : List Bytes
  pub lan_clients : List LanClient
  pub lan_discovery : Bool
  pub no_tui : Bool
  pub debug : Bool

-- The errors of `validate`, the first ones in the order of their checks.
pub data ConfigError : Type 0 where
  no_user no_password no_profile no_dns_servers half_credentials : ConfigError
  bad_dns_server bad_client_ip bad_client_mac : ℕ → ConfigError

-- `net.ParseIP` takes no zone.
unfoldable pub no_zone : Addr → Bool
no_zone no_addr = false
no_zone (v4 a) = true
no_zone (v6 a z) = is_empty z

-- `ip.To4() != nil`: an IPv4 address, or one mapped into IPv6.
unfoldable pub has_to4 : Addr → Bool
has_to4 no_addr = false
has_to4 (v4 a) = true
has_to4 (v6 a z) = a / 2 ^ 32 == 0xffff

abbrev pub first_error : List (Option ConfigError) → Option ConfigError
first_error [] = none
first_error (none ∷ es) = first_error es
first_error (some e ∷ es) = some e

abbrev pub check : Bool → ConfigError → Option ConfigError
check true e = none
check false e = some e

module _ ⦃t : V6Text⦄ where
  -- `net.ParseIP`
  unfoldable pub parse_ip : Bytes → Option Addr
  parse_ip s = parse_addr s >>= λ a. keep_if (no_zone a) a

  -- The loop over `dns_servers`, from an index.
  unfoldable pub check_dns : ℕ → List Bytes → Option ConfigError
  check_dns i [] = none
  check_dns i (srv ∷ srvs) =
      let rest = check_dns (i + 1) srvs in
      if is_some (parse_ip srv) then rest else some (bad_dns_server i)

  -- The address of a client is refused unless it has four bytes.
  unfoldable pub good_client_ip : Bytes → Bool
  good_client_ip ip = is_some (parse_ip ip >>= λ a. keep_if (has_to4 a) a)

  unfoldable pub good_client_mac : Bytes → Bool
  good_client_mac mac = is_empty mac || is_some (parse_mac mac)

  -- The loop over `lan_clients`, from an index.
  unfoldable pub check_clients : ℕ → List LanClient → Option ConfigError
  check_clients i [] = none
  check_clients i (lc ∷ lcs) =
      let rest = check_clients (i + 1) lcs in
      if not (good_client_ip lc.ip)
      then some (bad_client_ip i)
      else if not (good_client_mac lc.mac)
      then some (bad_client_mac i)
      else rest

  is_nil : List Bytes → Bool
  is_nil [] = true
  is_nil (s ∷ ss) = false

  -- `validate`; `none` is no error.
  unfoldable pub validate : Config → Option ConfigError
  unfolding is_nil
  validate c = first_error (
      check (not (is_empty c.cisco_user)) no_user
      ∷ check (not (is_empty c.cisco_password)) no_password
      ∷ check (not (is_empty c.cisco_profile)) no_profile
      ∷ check (not (is_nil c.dns_servers)) no_dns_servers
      ∷ check_dns 0 c.dns_servers
      ∷ check_clients 0 c.lan_clients
      ∷ check (not (bool_ne (is_empty c.socks_user) (is_empty c.socks_password))) half_credentials
      ∷ [])

-- `serviceOptions`
unfoldable pub service_options : Config → Options
service_options c = record {
  cisco_user = c.cisco_user;
  cisco_password = c.cisco_password;
  cisco_profile = c.cisco_profile;
  socks_user = c.socks_user;
  socks_password = c.socks_password;
  dns_servers = c.dns_servers;
  lan_clients = c.lan_clients;
  lan_discovery = c.lan_discovery;
}
