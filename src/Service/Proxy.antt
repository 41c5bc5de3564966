-- ===== src/Service/Proxy.antt =====
-- internal/service/proxy.go: the accept loop, what it does with a connection, and `startProxy`.
pub mod Accept
pub mod Life
use cisco_socks_server.Prelude.{
  ℕ, ◌/◌, ◌%◌, ◌^◌, Bool, true, false, not, ◌&&◌, List, [], ◌∷◌, Option, none, some, if◌then◌else◌,
  ◌==◌, ◌>>=◌,
}
use cisco_socks_server.Net.Addr.{Addr, no_addr, v4, v6, V6Text}
use cisco_socks_server.Service.State.{State, Options, discovery_enabled}
use cisco_socks_server.Service.Pinner.{PinOps, Pinning}
use cisco_socks_server.Service.Sniffer.{discover_client}
use cisco_socks_server.Service.Conns.{Tracker, add, remove, close_all}

-- `addr.Unmap()`
unfoldable pub unmap : Addr → Addr
unmap no_addr = no_addr
unmap (v4 a) = v4 a
unmap (v6 a z) = if a / 2 ^ 32 == 0xffff then v4 (a % 2 ^ 32) else v6 a z

-- `remoteAddrPort`, for the address of a TCP peer, if it is one.
unfoldable pub remote_addr : Option Addr → Option Addr
remote_addr peer = peer >>= λ a. some (unmap a)

-- What `Accept` gives: a connection, or an error, with whether the context is done by then,
-- whether the error says that the listener is closed, and whether the context ends in the pause.
pub data Accepted : Type 0 where
  conn : ℕ → Accepted
  failed : (ctx_done closed stopped : Bool) → Accepted

-- How `acceptConns` returns: without an error, or since its listener is closed.
pub data Ended : Type 0 where
  stopped listener_closed : Ended

-- One round of the loop of `acceptConns`, and its result if it returns.
unfoldable pub accept_round : Bool → Accepted → Tracker → Tracker × Option Ended
accept_round lan (conn c) t = (add t c lan, none)
accept_round lan (failed ctx_done closed stops) t = (
  t,
  if ctx_done
      then some stopped
      else if closed
      then some listener_closed
      else if stops
      then some stopped
      else none,
)

accept_more : Option Ended → Tracker × Option Ended → Tracker → Tracker × Option Ended
accept_more none rest t = rest
accept_more (some e) rest t = (t, some e)

-- `acceptConns`
unfoldable pub accept_conns : Bool → List Accepted → Tracker → Tracker × Option Ended
unfolding accept_more
accept_conns lan [] t = (t, none)
accept_conns lan (a ∷ more) t =
    accept_more (accept_round lan a t).1 (accept_conns lan more (accept_round lan a t).0)
      (accept_round lan a t).0

module _ {W : Type 0} (ops : PinOps W) ⦃t : V6Text⦄ where
  -- What the goroutine of a connection does before `ServeConn`.
  unfoldable pub greet : Options → Bool → State → Option Addr → ℕ → Pinning W → Pinning W
  greet opts lan state peer now s =
      if lan && discovery_enabled opts
      then discover_client ops state (remote_addr peer) now s
      else s

-- The errors of `startProxy`.
pub data ProxyError : Type 0 where
  bind_failed : ProxyError
  proxy_failed : Ended → ProxyError

abbrev pub set_proxy : Bool → State → State
set_proxy up st = record st { proxy_started = up }

-- What `startProxy` meets: whether `ciscoReady` is closed before the context ends, whether it can
-- listen, what happens to the state and the connections while it serves, and what `Wait` returns of
-- the goroutines of its group.
pub record ProxyInput : Type 0 where
  pub ready : Bool
  pub listens : Bool
  pub serving : State × Tracker → State × Tracker
  pub waited : Option Ended

abbrev as_proxy_error : Option Ended → Option ProxyError
as_proxy_error none = none
as_proxy_error (some e) = some (proxy_failed e)

-- `startProxy`, with its deferred calls: the state and the connections that it leaves, and its
-- result.
unfoldable pub start_proxy : ProxyInput → State × Tracker → (State × Tracker) × Option ProxyError
start_proxy inp (st, t) =
    let (st', t') = inp.serving (set_proxy true st, t) in
    if not inp.ready
    then ((set_proxy false st, t), none)
    else if not inp.listens
    then ((set_proxy false st, t), some bind_failed)
    else ((set_proxy false st', (close_all t').0), as_proxy_error inp.waited)
