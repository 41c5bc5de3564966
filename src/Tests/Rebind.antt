-- ===== src/Tests/Rebind.antt =====
-- internal/service/cisco.go and lan.go: a run of the supervisor and of the LAN listener.
use cisco_socks_server.Prelude.{true, false, [], ◌≡◌, refl, All, str_eq}
use cisco_socks_server.Net.Addr.{masked}
use cisco_socks_server.Service.State.{LanSnapshot, lan_snapshot, lan_changed, snapshot_eq}
use cisco_socks_server.Service.Conns.{Tracker, add}
use cisco_socks_server.Service.Listener.{bind_lan, drop_stale, open_lan, serve_round}
use cisco_socks_server.Service.Proxy.{accept_round}
use cisco_socks_server.Service.Supervisor.{start, confirm_lan, keep_lan}
use cisco_socks_server.Service.Round.{between, store_lan, look_at, look, advance}
use cisco_socks_server.Service.Round.Told.{is_telling}
use cisco_socks_server.Service.Rebind.{
  Pair, waits, begin, current, Reach, here, next, ticked, reads, binds, checks, accepts,
}
use cisco_socks_server.Service.Rebind.Wakeups.{Settled}
use cisco_socks_server.Service.Rebind.Origins.{IsOn, serve_lan_follows}
use cisco_socks_server.Tests.Supervisor.{fresh, refusal}
use cisco_socks_server.Tests.Loops.{from_home}

abbrev nobody : Tracker
nobody = record { conns = []; closed = [] }

abbrev Turns : Type 0
Turns = (p : Pair) × Reach from_home (begin (start fresh) between nobody) p

-- `serveLAN` waits for a LAN; the supervisor has found one and stored it, and has not yet called
-- `notifyLANCheck`.
stored : Turns
unfolding advance look look_at store_lan confirm_lan keep_lan lan_snapshot lan_changed snapshot_eq
    masked str_eq serve_round bind_lan drop_stale open_lan
stored = (
  _,
  next (next (next (next here (reads _ refl)) (binds _ _ true refl)) (ticked _ refusal))
      (ticked _ refusal),
)

stored-telling : is_telling stored.0.round ≡ true
unfolding stored
stored-telling = refl

-- The check comes, `serveLAN` binds its listener, and a client connects.
bound : Turns
unfolding stored accept_round add
bound = (
  _,
  next
      (next (next (next (next stored.1 (ticked _ refusal)) (checks _ _ refl refl)) (reads _ refl))
        (binds _ _ true refl))
      (accepts _ 5 true (λ e. refl)),
)

bound-waits : (want : LanSnapshot) × (bound.0.phase ≡ waits want)
unfolding bound
bound-waits = (_, refl)

bound-quiet : (bound.0.sup.shared.lan_check ≡ false) × (is_telling bound.0.round ≡ false)
unfolding bound
bound-quiet = (refl, refl)

serve_lan_follows_example :
    Settled (current bound.0) bound.0.serving
    × All (IsOn from_home (current bound.0)) bound.0.serving.conns.conns
serve_lan_follows_example =
    serve_lan_follows from_home (start fresh) between nobody bound-waits.0 tt bound.1 bound-waits.1
      bound-quiet.0 bound-quiet.1
