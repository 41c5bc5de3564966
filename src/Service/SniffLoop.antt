-- ===== src/Service/SniffLoop.antt =====
-- internal/service/sniff.go: `startSniffer` and `sniffLAN`, by how the runs of `tcpdump` end.
pub mod Turns
use cisco_socks_server.Prelude.{
  ℕ, ◌*◌, Bool, true, false, not, ◌||◌, List, [], ◌∷◌, ◌++◌, Option, none, some, Bytes,
  if◌then◌else◌, is_empty,
}
use cisco_socks_server.Shell.{StreamError}
use cisco_socks_server.Service.State.{Options, LanSnapshot, discovery_enabled, second}

-- `snifferRetry`, `snifferLANPoll`
abbrev pub sniffer_retry : ℕ
sniffer_retry = 10 * second

abbrev pub sniffer_lan_poll : ℕ
sniffer_lan_poll = 2 * second

-- The errors of `sniffLAN`: `errSnifferExited`, and that of `WatchSYN`.
pub data SniffError : Type 0 where
  sniffer_exited : SniffError
  watch_failed : StreamError → SniffError

-- What `WatchSYN` returns, and whether by then the context is done or the LAN has changed.
pub record Watched : Type 0 where
  pub ctx_done : Bool
  pub lan_changed : Bool
  pub error : Option StreamError

-- `sniffLAN`
unfoldable pub sniff_lan : Watched → Option SniffError
sniff_lan w =
    if w.ctx_done || w.lan_changed
    then none
    else elim w.error [ none ↦ some sniffer_exited | some e ↦ some (watch_failed e) ]

-- What one round meets: the LAN, how the watch ends, whether the context outlives the pause, and
-- whether it is done at the end of the round.
pub record SnifferInput : Type 0 where
  pub lan : LanSnapshot
  pub watch : Watched
  pub sleeps : Bool
  pub done_after : Bool

-- What the sniffer does: it watches an interface, with this result, or it pauses.
pub data Turn : Type 0 where
  watches : Bytes → Option SniffError → Turn
  pauses : ℕ → Turn

-- A round from the result of `sniffLAN` on.
unfoldable pub after_watch : SnifferInput → Option SniffError → List Turn × Bool
after_watch inp none = (watches inp.lan.iface none ∷ [], inp.watch.ctx_done || inp.done_after)
after_watch inp (some e) = (
  watches inp.lan.iface (some e) ∷ pauses sniffer_retry ∷ [],
  not inp.sleeps || inp.watch.ctx_done || inp.done_after,
)

-- One round of the loop of `startSniffer`, and whether it returns.
unfoldable pub sniffer_round : SnifferInput → List Turn × Bool
sniffer_round inp =
    if is_empty inp.lan.iface
    then (pauses sniffer_lan_poll ∷ [], not inp.sleeps)
    else after_watch inp (sniff_lan inp.watch)

unfoldable pub sniffer_rounds : List SnifferInput → List Turn × Bool
sniffer_rounds [] = ([], false)
sniffer_rounds (inp ∷ inps) =
    let (turns, returned) = sniffer_round inp in
    let (more, ended) = sniffer_rounds inps in
    if returned then (turns, true) else (turns ++ more, ended)

-- `startSniffer`: what it does, and whether it has returned.
unfoldable pub start_sniffer : Options → List SnifferInput → List Turn × Bool
start_sniffer opts inps = if not (discovery_enabled opts) then ([], true) else sniffer_rounds inps
