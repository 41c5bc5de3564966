-- ===== src/Tests/Clients.antt =====
-- internal/service/clients.go: the registry.
use cisco_socks_server.Prelude.{
  ℕ, ◌*◌, true, false, List, [], ◌∷◌, Option, some, ◌≡◌, refl, lookup, insert, Distinct, listed,
  inl,
}
use cisco_socks_server.Net.Addr.{Addr, v4, print_addr}
use cisco_socks_server.Service.State.{minute}
use cisco_socks_server.Service.Clients.{new_client_registry, expire, discovered_client_ttl}
use cisco_socks_server.Service.Clients.Registry.{Call, sees, sets_mac, expires, resets, run}
use cisco_socks_server.Service.Clients.Refine.{table, spec_run, run_refines}
use cisco_socks_server.Service.Conns.{Tracker, remote_ips}
use cisco_socks_server.Service.Conns.Drop.{HasPeer, expire-HasPeer}
use cisco_socks_server.Tests.Samples.{
  sample_v6, phone, phone_ip, phone_mac, phone_client, one_client,
}

-- A day on two networks.
abbrev day : List Call
day =
    sees phone phone_mac minute
    ∷ sets_mac phone []
    ∷ resets
    ∷ expires (40 * minute) discovered_client_ttl (λ ip. false)
    ∷ []

configured : Distinct (new_client_registry (phone_client ∷ []))
unfolding new_client_registry insert lookup
configured = (refl, tt)

run_refines_example :
    lookup phone (run (new_client_registry (phone_client ∷ [])) day)
    ≡ spec_run (table (new_client_registry (phone_client ∷ []))) day phone
run_refines_example = run_refines (new_client_registry (phone_client ∷ [])) day phone configured

one-Distinct : Distinct one_client
unfolding lookup
one-Distinct = (refl, tt)

abbrev peer : ℕ → Option Addr
peer c = some (v4 phone_ip)

abbrev one_conn : Tracker
one_conn = record { conns = (7, true) ∷ []; closed = [] }

one_conn-HasPeer : HasPeer peer one_conn.conns (print_addr (v4 phone_ip))
one_conn-HasPeer = inl (v4 phone_ip, refl, refl)

-- A transfer of a day.
expire-HasPeer_example :
    lookup
      (print_addr (v4 phone_ip))
      (expire one_client (1_440 * minute) (30 * minute) (listed (remote_ips peer one_conn))).0
    ≡ lookup (print_addr (v4 phone_ip)) one_client
expire-HasPeer_example =
    expire-HasPeer peer (print_addr (v4 phone_ip)) one_conn one_client (1_440 * minute)
      (30 * minute) one-Distinct one_conn-HasPeer
