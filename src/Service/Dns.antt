-- ===== src/Service/Dns.antt =====
-- internal/service/dns.go: `forwardDNS`. The DNS library is a parameter.
pub mod Forward
pub mod Handler
use cisco_socks_server.Prelude.{
  ℕ, Bool, true, false, not, ◌&&◌, List, [], ◌∷◌, Option, none, some, Bytes, bytes, if◌then◌else◌,
}
use cisco_socks_server.Service.State.{State}

-- What `forwardDNS` uses of the library: messages, whether they carry EDNS0, a copy with an OPT
-- record for a UDP size, the exchange with a server, the extra section with its record types, and a
-- reply with the code of a failed server.
pub record DnsLib : Type 1 where
  pub Msg : Type 0
  pub Rr : Type 0
  pub is_edns0 : Msg → Bool
  pub set_edns0 : ℕ → Msg → Msg
  pub exchange : Msg → Bytes → Option Msg
  pub extra : Msg → List Rr
  pub set_extra : List Rr → Msg → Msg
  pub is_opt : Rr → Bool
  pub servfail : Msg → Msg

-- `dnsUpstreamUDPSize`
abbrev pub dns_upstream_udp_size : ℕ
dns_upstream_udp_size = 4096

module _ (lib : DnsLib) where
  open lib use {Msg, Rr, is_edns0, set_edns0, exchange, extra, set_extra, is_opt, servfail}

  -- `slices.DeleteFunc`, of the OPT records.
  unfoldable pub without_opt : List Rr → List Rr
  without_opt [] = []
  without_opt (r ∷ rs) = let rest = without_opt rs in if is_opt r then rest else r ∷ rest

  -- The query that goes to the servers.
  unfoldable pub request : Msg → Msg
  request r = if is_edns0 r then r else set_edns0 dns_upstream_udp_size r

  -- The answer that goes to the client.
  unfoldable pub answer : Msg → Msg → Msg
  answer r resp = if is_edns0 r then resp else set_extra (without_opt (extra resp)) resp

  try_servers : Msg → List Bytes → Option Msg
  try_servers r [] = none
  try_servers r (server ∷ servers) = elim (exchange (request r) server) [
    | none ↦ try_servers r servers
    | some resp ↦ some (answer r resp)
  ]

  -- `forwardDNS`; `none` is the error that all servers failed. A server stands for its address
  -- with port 53.
  unfoldable pub forward_dns : List Bytes → Msg → Option Msg
  unfolding try_servers
  forward_dns servers r = try_servers r servers

  reply_with : Msg → Option Msg → Msg
  reply_with r none = servfail r
  reply_with r (some resp) = resp

  -- The handler of `startDNS`: the message that it writes.
  unfoldable pub handle_query : List Bytes → Msg → Msg
  unfolding reply_with
  handle_query servers r = reply_with r (forward_dns servers r)

-- The errors of `startDNS`.
pub data DnsError : Type 0 where
  dns_listen dns_server : DnsError

abbrev pub set_dns : Bool → State → State
set_dns up st = record st { dns_started = up }

-- What `startDNS` meets: whether `ciscoReady` is closed before the context ends, whether it can
-- listen, what happens to the state while it serves, and whether the server fails, and the context
-- is done by then.
pub record DnsInput : Type 0 where
  pub ready : Bool
  pub listens : Bool
  pub serving : State → State
  pub server_fails : Bool
  pub ctx_done : Bool

-- `startDNS`, with its deferred call: the state that it leaves, and its result.
unfoldable pub start_dns : DnsInput → State → State × Option DnsError
start_dns inp st =
    if not inp.ready
    then (set_dns false st, none)
    else if not inp.listens
    then (set_dns false st, some dns_listen)
    else (
      set_dns false (inp.serving (set_dns true st)),
      if inp.server_fails && not inp.ctx_done then some dns_server else none,
    )
