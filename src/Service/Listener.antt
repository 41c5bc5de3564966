-- ===== src/Service/Listener.antt =====
-- internal/service/lan.go: `serveLAN`, one round of its loop at a time. The listener of the LAN is
-- known by the LAN that it is bound to.
pub mod Bound
use cisco_socks_server.Prelude.{
  ℕ, Bool, true, false, not, ◌&&◌, Option, none, some, [], if◌then◌else◌, is_empty,
}
use cisco_socks_server.Service.State.{LanSnapshot, snapshot_eq}
use cisco_socks_server.Service.Conns.{Tracker, close_lan}

-- What `serveLAN` keeps between the rounds.
pub record Serving : Type 0 where
  pub bound : Option LanSnapshot
  pub conns : Tracker
  pub warned_no_lan : Bool

-- The listener is closed, with the connections that it accepted, unless it is bound to the LAN
-- that is wanted.
unfoldable pub drop_stale : LanSnapshot → Serving → Serving
drop_stale want s = elim s.bound [
  | none ↦ s
  | some b ↦
      if not (snapshot_eq b want)
      then record s { bound = none; conns = (close_lan s.conns).0 }
      else s
]

-- `openLAN`: the LAN that the new listener is bound to, unless the bind fails.
unfoldable pub open_lan : Bool → LanSnapshot → Option LanSnapshot
open_lan binds lan = if binds then some lan else none

-- The switch of a round.
unfoldable pub bind_lan : LanSnapshot → Bool → Serving → Serving
bind_lan want binds s = elim s.bound [
  | some b ↦ s
  | none ↦
      if not (is_empty want.iface)
      then record s { bound = open_lan binds want }
      else if not s.warned_no_lan
      then record s { warned_no_lan = true }
      else s
]

-- One round, up to its `select`.
unfoldable pub serve_round : LanSnapshot → Bool → Serving → Serving
serve_round want binds s = bind_lan want binds (drop_stale want s)

-- Whether the round waits for a retry of the bind.
unfoldable pub retries : LanSnapshot → Serving → Bool
retries want s = elim s.bound [ none ↦ not (is_empty want.iface) | some b ↦ false ]

-- What ends the `select`.
pub data Wakeup : Type 0 where
  ctx_done lan_checked retried : Wakeup
  loop_ended : Bool → Wakeup

-- How `serveLAN` goes on: another round, or its result, with whether it is an error, and the
-- listener that is still to close.
pub data Next : Type 0 where
  again : Serving → Next
  returns : Bool → Serving → Next

-- The `select`, with the deferred close.
unfoldable pub wake : Wakeup → Serving → Next
wake ctx_done s = returns false (record s { bound = none })
wake lan_checked s = again s
wake retried s = again s
wake (loop_ended error) s = returns error (record s { bound = none })
