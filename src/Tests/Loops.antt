-- ===== src/Tests/Loops.antt =====
-- internal/service: the loops of the sniffer, of the proxy and of the LAN listener.
use cisco_socks_server.Prelude.{
  ℕ, true, false, List, [], ◌∷◌, ◌++◌, none, some, Bytes, bytes, ◌≡◌, refl, All, ◌⊎◌,
}
use cisco_socks_server.Net.Addr.{prefix}
use cisco_socks_server.Service.State.{LanSnapshot, Options, zero_state, lan_snapshot}
use cisco_socks_server.Service.Conns.{Tracker}
use cisco_socks_server.Service.Supervisor.{Supervisor, start}
use cisco_socks_server.Service.SniffLoop.{SnifferInput, start_sniffer}
use cisco_socks_server.Service.SniffLoop.Turns.{IsCalm, start_sniffer-IsCalm}
use cisco_socks_server.Service.Proxy.{Accepted, conn, failed, listener_closed, accept_conns}
use cisco_socks_server.Service.Proxy.Accept.{add_conns, accept_conns-Breaks}
use cisco_socks_server.Service.Dns.{request, answer, handle_query}
use cisco_socks_server.Service.Dns.Handler.{FirstAnswer, handle_query_replies}
use cisco_socks_server.Service.State.{discovery_enabled}
use cisco_socks_server.Tests.Samples.{en0, phone_client}
use cisco_socks_server.Tests.Outside.{sample_dns}

abbrev home_lan : LanSnapshot
home_lan = record { subnet = prefix 0xc0a80000 24; iface = en0 }

-- `tcpdump` ends, and the context lives on.
abbrev broken : SnifferInput
broken = record {
  lan = home_lan;
  watch = record { ctx_done = false; lan_changed = false; error = none };
  sleeps = true;
  done_after = false;
}

abbrev stopping : SnifferInput
stopping = record broken {
  watch = record { ctx_done = true; lan_changed = false; error = none };
  sleeps = false;
}

abbrev pub discovers : Options
discovers = record {
  cisco_user = [];
  cisco_password = [];
  cisco_profile = [];
  socks_user = bytes "lan";
  socks_password = bytes "secret";
  dns_servers = [];
  lan_clients = phone_client ∷ [];
  lan_discovery = true;
}

start_sniffer-IsCalm_example :
    IsCalm (start_sniffer discovers (broken ∷ broken ∷ stopping ∷ [])).0
    × ((discovery_enabled discovers ≡ true)
        ⊎ ((start_sniffer discovers (broken ∷ broken ∷ stopping ∷ [])).0 ≡ []))
start_sniffer-IsCalm_example = start_sniffer-IsCalm discovers (broken ∷ broken ∷ stopping ∷ [])

abbrev no_conns : Tracker
no_conns = record { conns = []; closed = [] }

abbrev before_break : List Accepted
before_break = conn 1 ∷ failed false false false ∷ conn 2 ∷ []

accept_conns-Breaks_example :
    accept_conns true (before_break ++ (failed false true false ∷ conn 3 ∷ [])) no_conns
    ≡ (add_conns true before_break no_conns, some listener_closed)
accept_conns-Breaks_example =
    accept_conns-Breaks true before_break (conn 3 ∷ []) (failed false true false) no_conns
      (tt, ((refl, refl, refl), (tt, tt))) (refl, refl)

abbrev two_servers : List Bytes
two_servers = bytes "10.0.0.53" ∷ bytes "10.0.0.54" ∷ []

handle_query_replies_example :
    (All (λ s. sample_dns.exchange (request sample_dns []) s ≡ none) two_servers
      × (handle_query sample_dns two_servers [] ≡ []))
    ⊎ ((resp : List ℕ) × FirstAnswer sample_dns [] two_servers resp
        × (handle_query sample_dns two_servers [] ≡ answer sample_dns [] resp))
handle_query_replies_example = handle_query_replies sample_dns two_servers []

-- A daemon on a Mac without a network.
abbrev alone : Supervisor
alone = start (record {
  status = zero_state;
  clients = [];
  ready_closed = false;
  panicked = false;
  lan_check = false;
})

abbrev no_lan_yet : LanSnapshot
no_lan_yet = lan_snapshot zero_state

-- Every connection of the LAN listener is accepted at home.
abbrev pub from_home : ℕ → LanSnapshot
from_home c = home_lan
