-- ===== src/Service/Rebind/Shut.antt =====
-- internal/service/lan.go: the LAN listener when `serveLAN` has returned.
use cisco_socks_server.Prelude.{ℕ, none, ◌≡◌, refl}
use cisco_socks_server.Service.State.{LanSnapshot}
use cisco_socks_server.Service.Conns.{Tracker}
use cisco_socks_server.Service.Listener.{Serving, Wakeup, wake}
use cisco_socks_server.Service.Supervisor.{Supervisor}
use cisco_socks_server.Service.Round.{Round}
use cisco_socks_server.Service.Rebind.{
  Pair, returned, next_phase, next_serving, begin, Step, ticked, shares, accepts, closes, watches,
  reads, binds, checks, retried, ends, Reach, here, next,
}

-- When `serveLAN` has returned, there is no listener.
abbrev pub IsShut : Pair → Type 0
IsShut p = p.phase ≡ returned → p.serving.bound ≡ none

wake-shut :
    (w : Wakeup) (s : Serving)
    → next_phase (wake w s) ≡ returned
    → (next_serving (wake w s)).bound ≡ none
unfolding wake
wake-shut Wakeup.ctx_done s h = refl
wake-shut Wakeup.lan_checked s h = cc
wake-shut Wakeup.retried s h = cc
wake-shut (Wakeup.loop_ended e) s h = refl

Step-IsShut : {origin : ℕ → LanSnapshot} {p q : Pair} → Step origin p q → IsShut p → IsShut q
Step-IsShut (ticked p inp) h = h
Step-IsShut (shares p sv lan token) h = h
Step-IsShut (accepts p c lan on) h = h
Step-IsShut (closes p c) h = h
Step-IsShut (watches p was now) h = h
Step-IsShut (reads p e) h = λ over. cc
Step-IsShut (binds p want succeeds e) h = λ over. absurd (cc over)
Step-IsShut (checks p want e token) h = λ over. absurd (cc over)
Step-IsShut (retried p want e due) h = λ over. absurd (cc over)
Step-IsShut (ends p want w e over) h = λ _. wake-shut w p.serving over

pub Reach-IsShut :
    {origin : ℕ → LanSnapshot} (sv : Supervisor) (r0 : Round) (t : Tracker) {q : Pair}
    → Reach origin (begin sv r0 t) q
    → IsShut q
Reach-IsShut sv r0 t here = λ over. refl
Reach-IsShut sv r0 t (next r step) = Step-IsShut step (Reach-IsShut sv r0 t r)
