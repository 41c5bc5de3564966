-- ===== src/Service/SniffLoop/Turns.antt =====
-- When the sniffer watches, when it pauses, and when it returns.
use cisco_socks_server.Prelude.{
  Bool, true, false, not, List, [], ◌∷◌, ◌++◌, Option, none, some, is_empty, ◌≡◌, refl, inl, inr,
  ◌⊎◌, arith, Bool-cases, subst, append-nil, if_elim,
}
use cisco_socks_server.Service.State.{Options, discovery_enabled}
use cisco_socks_server.Service.SniffLoop.{
  SniffError, sniff_lan, after_watch, SnifferInput, Turn, watches, pauses, sniffer_round,
  sniffer_rounds, start_sniffer, sniffer_retry,
}

-- `tcpdump` runs on a LAN only, and when it has failed, the next thing is the pause of 10 seconds.
abbrev pub IsCalm : List Turn → Type 0
IsCalm [] = Unit
IsCalm (pauses d ∷ ts) = IsCalm ts
IsCalm (watches iface none ∷ ts) = (is_empty iface ≡ false) × IsCalm ts
IsCalm (watches iface (some e) ∷ pauses d ∷ ts) =
    (is_empty iface ≡ false) × (d ≡ sniffer_retry) × IsCalm ts
IsCalm (watches iface (some e) ∷ ts) = ⊥

-- The context of a round is done.
pub record IsDone (inp : SnifferInput) : Type 0 where
  pub watch : inp.watch.ctx_done ≡ true
  pub sleeps : inp.sleeps ≡ false

after_watch-append :
    (inp : SnifferInput) (r : Option SniffError) (ts : List Turn)
    → is_empty inp.lan.iface ≡ false
    → IsCalm ts
    → IsCalm ((after_watch inp r).0 ++ ts)
unfolding after_watch
after_watch-append inp none ts e h = (e, h)
after_watch-append inp (some r) ts e h = (e, refl, h)

sniffer_round-append :
    (inp : SnifferInput) (ts : List Turn) → IsCalm ts → IsCalm ((sniffer_round inp).0 ++ ts)
unfolding sniffer_round
sniffer_round-append inp ts h = elim (Bool-cases (is_empty inp.lan.iface)) [
  | inl none_yet ↦ rw none_yet h
  | inr named ↦ rw named (after_watch-append inp (sniff_lan inp.watch) ts named h)
]

sniffer_rounds-IsCalm : (inps : List SnifferInput) → IsCalm (sniffer_rounds inps).0
unfolding sniffer_rounds
sniffer_rounds-IsCalm [] = tt
sniffer_rounds-IsCalm (inp ∷ inps) = elim (Bool-cases (sniffer_round inp).1) [
  | inl ends ↦
      rw ends (subst IsCalm (append-nil (sniffer_round inp).0) (sniffer_round-append inp [] tt))
  | inr goes ↦
      rw goes (sniffer_round-append inp (sniffer_rounds inps).0 (sniffer_rounds-IsCalm inps))
]

-- Without discovery the sniffer runs no `tcpdump`; with it, `tcpdump` runs on a LAN only, and a
-- run that fails is followed by the pause before anything else.
pub start_sniffer-IsCalm :
    (opts : Options) (inps : List SnifferInput)
    → IsCalm (start_sniffer opts inps).0
      × ((discovery_enabled opts ≡ true) ⊎ ((start_sniffer opts inps).0 ≡ []))
unfolding start_sniffer
start_sniffer-IsCalm opts inps = elim (Bool-cases (discovery_enabled opts)) [
  | inl on ↦ (rw on (sniffer_rounds-IsCalm inps), inl on)
  | inr off ↦ (rw off tt, inr (rw off))
]

after_watch_done :
    (inp : SnifferInput) (r : Option SniffError) → IsDone inp → (after_watch inp r).1 ≡ true
unfolding after_watch
after_watch_done inp none d = ground arith
after_watch_done inp (some e) d = ground arith

sniffer_round_done : (inp : SnifferInput) → IsDone inp → (sniffer_round inp).1 ≡ true
unfolding sniffer_round
sniffer_round_done inp d = ground (arith, after_watch_done inp (sniff_lan inp.watch) d)

sniffer_rounds_return :
    (inps : List SnifferInput) (last : SnifferInput)
    → IsDone last
    → (sniffer_rounds (inps ++ (last ∷ []))).1 ≡ true
unfolding sniffer_rounds
sniffer_rounds_return [] last d = rw (sniffer_round_done last d)
sniffer_rounds_return (inp ∷ inps) last d = ground (arith, sniffer_rounds_return inps last d)

-- The sniffer returns once its context is done, whatever came before: no round that meets a
-- context that is done goes on.
pub start_sniffer_returns :
    (opts : Options) (inps : List SnifferInput) (last : SnifferInput)
    → IsDone last
    → (start_sniffer opts (inps ++ (last ∷ []))).1 ≡ true
unfolding start_sniffer
start_sniffer_returns opts inps last d =
    if_elim (λ (r : List Turn × Bool). r.1 ≡ true) (not (discovery_enabled opts)) ([], true) _
      (λ _. refl) λ _. sniffer_rounds_return inps last d
