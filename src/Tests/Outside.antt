-- ===== src/Tests/Outside.antt =====
-- cmd/config.go, internal/utils/cisco, internal/utils/shell and internal/service/dns.go.
use cisco_socks_server.Prelude.{
  ℕ, ◌+◌, ◌*◌, ◌^◌, true, false, List, [], ◌∷◌, none, some, Bytes, bytes, ◌≡◌, refl, ◌↔◌, All,
  arith, str_eq, if◌then◌else◌, ◌==◌,
}
use cisco_socks_server.Strings.{split, trim_space, cut_prefix, IsWord, is_word, is_word-IsWord}
use cisco_socks_server.Net.Addr.{v6, parse_addr, read_v4, read_fields, read_field}
use cisco_socks_server.Service.State.{discovery_enabled}
use cisco_socks_server.Service.Pinner.{skipped}
use cisco_socks_server.Service.Dns.{DnsLib, request, answer, forward_dns, without_opt}
use cisco_socks_server.Service.Dns.Forward.{forward_dns_no_opt}
use cisco_socks_server.Config.{
  Config, validate, service_options, good_client_ip, check_dns, check_clients, parse_ip, no_zone,
}
use cisco_socks_server.Config.Validate.{IsComplete, validate_iff}
use cisco_socks_server.Config.Mapped.{mapped_client_skipped}
use cisco_socks_server.Cisco.Stream.{IsSilent}
use cisco_socks_server.Shell.{tail_size, write_all}
use cisco_socks_server.Shell.Tail.{joined, last_bytes, write_all-tail}
use cisco_socks_server.Tests.Samples.{sample_v6, at_home}

abbrev pub config : Config
config = record {
  cisco_user = bytes "user";
  cisco_password = bytes "password";
  cisco_profile = bytes "work";
  socks_user = bytes "lan";
  socks_password = bytes "secret";
  dns_servers = bytes "10.0.0.53" ∷ [];
  lan_clients = [];
  lan_discovery = false;
  no_tui = false;
  debug = false;
}

config-valid : validate config ≡ none
unfolding validate check_dns check_clients parse_ip no_zone parse_addr read_v4 read_fields
    read_field split
config-valid = refl

validate_iff_example : (validate config ≡ none) ↔ IsComplete config
validate_iff_example = validate_iff config

discovers : discovery_enabled (service_options config) ≡ true
unfolding discovery_enabled service_options
discovers = refl

abbrev mapped : Bytes
mapped = bytes "::ffff:192.168.0.42"

mapped-parsed : parse_addr mapped ≡ some (v6 (0xffff * 2 ^ 32 + 0xc0a8002a) [])
unfolding parse_addr str_eq
mapped-parsed = refl

mapped_client_skipped_example : (good_client_ip mapped ≡ true) × (skipped at_home mapped ≡ true)
mapped_client_skipped_example =
    mapped_client_skipped mapped (0xffff * 2 ^ 32 + 0xc0a8002a) at_home mapped-parsed (omega arith)

connected-IsWord : IsWord (bytes "Connected")
unfolding is_word
connected-IsWord = is_word-IsWord (bytes "Connected") refl

notice-IsSilent : All IsSilent (split (bytes "  >> notice: Ready to connect.") b'\n')
unfolding split trim_space cut_prefix
notice-IsSilent = (refl, tt)

abbrev three_writes : List Bytes
three_writes = bytes "vpn: " ∷ bytes "error: " ∷ bytes "no route" ∷ []

write_all-tail_example : write_all [] three_writes ≡ last_bytes tail_size (joined three_writes)
write_all-tail_example = write_all-tail three_writes

-- A message is the list of its extra records; the number 41 is an OPT record, and one server
-- answers.
abbrev pub sample_dns : DnsLib
sample_dns = record {
  Msg = List ℕ;
  Rr = ℕ;
  is_edns0 = λ m. false;
  set_edns0 = λ size m. 41 ∷ m;
  exchange = λ m server. if str_eq server (bytes "10.0.0.54") then some (1 ∷ m) else none;
  extra = λ m. m;
  set_extra = λ rs m. rs;
  is_opt = λ r. r == 41;
  servfail = λ m. [];
}

forwarded : forward_dns sample_dns (bytes "10.0.0.54" ∷ []) [] ≡ some (1 ∷ [])
unfolding forward_dns request answer without_opt str_eq
forwarded = refl

forward_dns_no_opt_example : All (λ rr. (rr == 41) ≡ false) (1 ∷ [])
forward_dns_no_opt_example =
    forward_dns_no_opt sample_dns (bytes "10.0.0.54" ∷ []) [] (1 ∷ []) (λ rs m. refl) refl forwarded
