-- ===== src/Route/Syn/Sound.antt =====
-- What is read from a line of `tcpdump` is in canonical form.
use cisco_socks_server.Prelude.{ℕ, some, Bytes, bytes, ◌≡◌, subst, >>=-eq-some, some_inj, ap}
use cisco_socks_server.Net.Addr.{V6Text, parse_addr}
use cisco_socks_server.Route.Arp.{canonical_mac}
use cisco_socks_server.Route.Arp.Mac.{canonical_mac_idem}
use cisco_socks_server.Route.Syn.{parse_syn_line, first_field, second_field, only_v4}
use cisco_socks_server.Strings.{fields, cut, before_last}

pub parse_syn_line_sound :
    ⦃t : V6Text⦄
    → (line : Bytes) {a : ℕ} {m : Bytes} → parse_syn_line line ≡ some (a, m)
    → canonical_mac m ≡ some m
unfolding parse_syn_line
parse_syn_line_sound line {a} {m} h =
    let (source, _, h1) = >>=-eq-some (first_field (fields line)) _ h in
    let (mac, canonical, h2) = >>=-eq-some (canonical_mac source) _ h1 in
    let (parts, _, h3) = >>=-eq-some (cut line (bytes ", length ")) _ h2 in
    let (endpoint, _, h4) = >>=-eq-some (second_field (fields parts.1)) _ h3 in
    let (host, _, h5) = >>=-eq-some (before_last endpoint b'.') _ h4 in
    let (addr, _, h6) = >>=-eq-some (parse_addr host) _ h5 in
    let (ip, _, h7) = >>=-eq-some (only_v4 addr) _ h6 in
    let same : mac ≡ m = ap (λ p. p.1) (some_inj h7) in
    subst (λ x. canonical_mac x ≡ some x) same (canonical_mac_idem source canonical).0
