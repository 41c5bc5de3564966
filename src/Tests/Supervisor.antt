-- ===== src/Tests/Supervisor.antt =====
-- internal/service/cisco.go and socks.go: the supervisor and the gates.
use cisco_socks_server.Prelude.{
  ℕ, ◌*◌, ◌^◌, min, true, false, [], ◌∷◌, ◌++◌, Option, some, Bytes, bytes, ◌≡◌, refl, any,
  if◌then◌else◌, inl, inr,
}
use cisco_socks_server.Net.Addr.{v4, contains_addr}
use cisco_socks_server.Route.Lan.{IfAddr, found}
use cisco_socks_server.Cisco.{connected, disconnected, reconnecting, connect_failed, connect_ok}
use cisco_socks_server.Service.State.{zero_state, lan_snapshot}
use cisco_socks_server.Service.Supervisor.{
  Shared, Supervisor, Input, ran_disconnect, start, tick, rounds, start_cisco, detect_lan,
  cisco_poll_interval, cisco_max_connect_delay,
}
use cisco_socks_server.Service.Supervisor.Backoff.{connects_now, start_cisco_exit, backoff_delay}
use cisco_socks_server.Service.Supervisor.Network.{
  Outcome, IsInside, sighting, detect_lan_outcome, detect_lan_twice,
}
use cisco_socks_server.Service.Gate.Leak.{IsShut, tick_shuts}
use cisco_socks_server.Tests.Samples.{phone_ip, en0, at_home, one_client}

abbrev pub fresh : Shared
fresh = record {
  status = zero_state;
  clients = [];
  ready_closed = false;
  panicked = false;
  lan_check = false;
}

-- The VPN is down, and the client refuses to connect.
abbrev pub refusal : Input
refusal = record {
  detected = found (record { addr = 0xc0a80069; bits = 24 }) en0;
  now = 0;
  later = 0;
  vpn_state = some disconnected;
  connects = connect_failed;
  disconnects = true;
  disables_pf = true;
  cancelled = false;
}

abbrev pub success : Input
success = record refusal { connects = connect_ok }

-- The user connects by hand.
abbrev pub by_hand : Input
by_hand = record refusal { vpn_state = some connected }

-- The client tries again by itself.
abbrev retrying : Input
retrying = record refusal { vpn_state = some reconnecting }

start_cisco_exit_example :
    ((start_cisco (refusal ∷ success ∷ []) fresh).commands ≡ (
      if any connects_now (refusal ∷ success ∷ [])
      then (rounds (refusal ∷ success ∷ []) (start fresh)).commands ++ (ran_disconnect ∷ [])
      else (rounds (refusal ∷ success ∷ []) (start fresh)).commands))
    × ((start_cisco (refusal ∷ success ∷ []) fresh).shared.status.cisco_connected ≡ false)
start_cisco_exit_example = start_cisco_exit (refusal ∷ success ∷ []) fresh

-- The VPN was lost again behind a failure and a success.
abbrev lost_again : Supervisor
lost_again = (tick success (rounds (refusal ∷ []) (start fresh))).0

backoff_delay_example :
    (tick refusal (rounds (refusal ∷ refusal ∷ []) lost_again)).1
    ≡ min (cisco_poll_interval * 2 ^ 2) cisco_max_connect_delay
backoff_delay_example =
    backoff_delay (refusal ∷ refusal ∷ []) refusal lost_again
      (inr (success, rounds (refusal ∷ []) (start fresh), inr (inl refl, refl), refl))
      ((refl, refl, refl), ((refl, refl, refl), tt)) (refl, refl, refl)

-- A service on a LAN, with a client.
abbrev served : Supervisor
served = record (start fresh) { shared = record fresh { status = at_home; clients = one_client } }

-- Another network: 10.0.0.7/16.
abbrev cafe : IfAddr
cafe = record { addr = 0x0a000007; bits = 16 }

detect_lan_outcome_example : Outcome served (found cafe en0)
detect_lan_outcome_example = detect_lan_outcome served (found cafe en0)

detect_lan_twice_example :
    (lan_snapshot (detect_lan (found cafe en0) (detect_lan (found cafe en0) served)).shared.status
      ≡ sighting cafe en0)
    × ((detect_lan (found cafe en0) (detect_lan (found cafe en0) served)).shared.status.lan_addr
        ≡ v4 cafe.addr)
detect_lan_twice_example = detect_lan_twice served cafe en0 (λ e. cc)

at_home-IsInside : IsInside at_home
unfolding contains_addr
at_home-IsInside = refl

-- A resolver that always answers.
abbrev answers : Bytes → Option ℕ
answers name = some phone_ip

tick_shuts_example : IsShut (tick refusal served).0.shared.status answers (bytes "example.org") true
tick_shuts_example =
    tick_shuts refusal served answers (bytes "example.org") true (inr (inl refl, λ e. cc))
