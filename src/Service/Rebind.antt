-- ===== src/Service/Rebind.antt =====
-- internal/service/cisco.go, lan.go and proxy.go: the supervisor and the owner of the LAN listener,
-- which share `State` and the channel `lanCheck`, and the connections, as steps in any order. A
-- round of the supervisor is taken in its parts (`Service/Round`), so that the others see what is
-- stored before `notifyLANCheck` is called.
pub mod Wakeups
pub mod Origins
pub mod Shut
pub mod Turns
use cisco_socks_server.Prelude.{ℕ, some, Bool, true, false, Option, none, ◌≡◌}
use cisco_socks_server.Service.State.{LanSnapshot, lan_snapshot}
use cisco_socks_server.Service.Conns.{Tracker, remove, watch_vpn}
use cisco_socks_server.Service.Proxy.{conn, accept_round}
use cisco_socks_server.Service.Listener.{
  Serving, serve_round, retries, Next, again, returns, Wakeup, wake,
}
use cisco_socks_server.Service.Supervisor.{Shared, Supervisor, Input}
use cisco_socks_server.Service.Round.{Round, advance}

-- Where `serveLAN` stands: at the head of its loop, behind the read of the LAN that it wants, in
-- the `select` of the round for that LAN, or returned.
pub data Phase : Type 0 where
  at_head : Phase
  wants waits : LanSnapshot → Phase
  returned : Phase

pub record Pair : Type 0 where
  pub sup : Supervisor
  pub round : Round
  pub serving : Serving
  pub phase : Phase

abbrev pub current : Pair → LanSnapshot
current p = lan_snapshot p.sup.shared.status

-- The receive from `lanCheck`.
abbrev pub take_check : Supervisor → Supervisor
take_check sv = let shared = sv.shared in record sv { shared = record shared { lan_check = false } }

abbrev pub set_conns : Tracker → Serving → Serving
set_conns t s = record s { conns = t }

-- What `wake` says, as the next phase.
abbrev pub next_phase : Next → Phase
next_phase (again s) = at_head
next_phase (returns error s) = returned

abbrev pub next_serving : Next → Serving
next_serving (again s) = s
next_serving (returns error s) = s

-- The supervisor goes on with its round; another goroutine writes to what is shared, but for the
-- LAN and the token; a connection is accepted, ends, or is dropped with the VPN; or `serveLAN` goes
-- on. The LAN listener accepts while it is bound; `origin` tells on which LAN it
-- accepted a connection.
pub data Step (origin : ℕ → LanSnapshot) : Pair → Pair → Type 0 where
  ticked :
      (p : Pair) (inp : Input)
      → Step origin p
          (record p { sup = (advance inp p.round p.sup).0; round = (advance inp p.round p.sup).1 })
  shares :
      (p : Pair) (sv : Supervisor)
      → lan_snapshot sv.shared.status ≡ lan_snapshot p.sup.shared.status
      → sv.shared.lan_check ≡ p.sup.shared.lan_check
      → Step origin p (record p { sup = sv })
  accepts :
      (p : Pair) (c : ℕ) (lan : Bool)
      → (lan ≡ true → p.serving.bound ≡ some (origin c))
      → Step origin p
          (record p { serving = set_conns (accept_round lan (conn c) p.serving.conns).0 p.serving })
  closes :
      (p : Pair) (c : ℕ)
      → Step origin p (record p { serving = set_conns (remove p.serving.conns c) p.serving })
  watches :
      (p : Pair) (was_connected connected : Bool)
      → Step origin p (record p {
        serving = set_conns (watch_vpn (was_connected, p.serving.conns) connected).1 p.serving;
      })
  reads : (p : Pair) → p.phase ≡ at_head → Step origin p (record p { phase = wants (current p) })
  binds :
      (p : Pair) (want : LanSnapshot) (succeeds : Bool)
      → p.phase ≡ wants want
      → Step origin p
          (record p { serving = serve_round want succeeds p.serving; phase = waits want })
  checks :
      (p : Pair) (want : LanSnapshot)
      → p.phase ≡ waits want
      → p.sup.shared.lan_check ≡ true
      → Step origin p (record p { sup = take_check p.sup; phase = at_head })
  retried :
      (p : Pair) (want : LanSnapshot)
      → p.phase ≡ waits want
      → retries want p.serving ≡ true
      → Step origin p (record p { phase = at_head })
  ends :
      (p : Pair) (want : LanSnapshot) (w : Wakeup)
      → p.phase ≡ waits want
      → next_phase (wake w p.serving) ≡ returned
      → Step origin p (record p { serving = next_serving (wake w p.serving); phase = returned })

-- `serveLAN` begins without a listener.
abbrev pub begin : Supervisor → Round → Tracker → Pair
begin sv r t = record {
  sup = sv;
  round = r;
  serving = record { bound = none; conns = t; warned_no_lan = false };
  phase = at_head;
}

pub data Reach (origin : ℕ → LanSnapshot) (p : Pair) : Pair → Type 0 where
  here : Reach origin p p
  next : {q r : Pair} → Reach origin p q → Step origin q r → Reach origin p r
