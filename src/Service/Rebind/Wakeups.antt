-- ===== src/Service/Rebind/Wakeups.antt =====
-- No change of the LAN is missed by the owner of the listener.
use cisco_socks_server.Prelude.{
  ℕ, Bool, true, false, not, none, some, is_empty, ◌≡◌, refl, sym, subst, ◌⊎◌, inl, inr, arith,
}
use cisco_socks_server.Service.State.{LanSnapshot}
use cisco_socks_server.Service.Listener.{Serving, serve_round, retries}
use cisco_socks_server.Service.Listener.Bound.{serve_round_bound}
use cisco_socks_server.Service.Conns.{Tracker}
use cisco_socks_server.Service.Supervisor.{Supervisor}
use cisco_socks_server.Service.Round.{Round}
use cisco_socks_server.Service.Round.Told.{is_telling, Seen, seen_of, Told, advance-Told}
use cisco_socks_server.Service.Rebind.{
  set_conns, Phase, at_head, wants, waits, returned, Pair, current, Step, ticked, shares, accepts,
  closes, watches, reads, binds, checks, retried, ends, Reach, here, next, begin,
}

-- The listener is bound to the LAN that is wanted, or there is none, and a retry is due exactly if
-- there is a LAN.
abbrev pub Settled : LanSnapshot → Serving → Type 0
Settled want s =
    ((s.bound ≡ some want) × (retries want s ≡ false))
    ⊎ ((s.bound ≡ none) × (retries want s ≡ not (is_empty want.iface)))

-- The LAN that is wanted is the current one, or there is a token for the next look at it.
abbrev Heard : LanSnapshot → Seen → Type 0
Heard want seen = (seen.1 ≡ true) ⊎ (want ≡ seen.0)

abbrev IsHeard : Phase → Seen → Serving → Type 0
IsHeard at_head seen s = Unit
IsHeard (wants want) seen s = Heard want seen
IsHeard (waits want) seen s = Heard want seen × Settled want s
IsHeard returned seen s = Unit

Heard-Told :
    (want : LanSnapshot) (before after : Seen)
    → Told before after
    → Heard want before
    → Heard want after
Heard-Told want before after (inl token) h = inl token
Heard-Told want before after (inr same) h = subst (Heard want) (sym same) h

IsHeard-Told :
    (phase : Phase) (s : Serving) (before after : Seen)
    → Told before after
    → IsHeard phase before s
    → IsHeard phase after s
IsHeard-Told at_head s before after told h = tt
IsHeard-Told (wants want) s before after told h = Heard-Told want before after told h
IsHeard-Told (waits want) s before after told (h, settled) =
    (Heard-Told want before after told h, settled)
IsHeard-Told returned s before after told h = tt

IsHeard-set_conns :
    (phase : Phase) (seen : Seen) (t : Tracker) (s : Serving)
    → IsHeard phase seen s
    → IsHeard phase seen (set_conns t s)
unfolding retries
IsHeard-set_conns at_head seen t s h = tt
IsHeard-set_conns (wants want) seen t s h = h
IsHeard-set_conns (waits want) seen t s h = h
IsHeard-set_conns returned seen t s h = tt

serve_round-Settled :
    (want : LanSnapshot) (succeeds : Bool) (s : Serving)
    → Settled want (serve_round want succeeds s)
serve_round-Settled want succeeds s = elim (serve_round_bound want succeeds s) [
  | inl bound ↦ inl bound
  | inr (none_yet, retry, _) ↦ inr (none_yet, retry)
]

IsHeard-wants :
    {phase : Phase} {want : LanSnapshot} (seen : Seen) (s : Serving)
    → phase ≡ wants want
    → IsHeard phase seen s
    → Heard want seen
IsHeard-wants {phase} {want} seen s e h = subst (λ ph. IsHeard ph seen s) e h

Step-IsHeard :
    {origin : ℕ → LanSnapshot} {p q : Pair}
    → Step origin p q
    → IsHeard p.phase (seen_of p.sup p.round) p.serving
    → IsHeard q.phase (seen_of q.sup q.round) q.serving
Step-IsHeard (ticked p inp) h =
    IsHeard-Told p.phase p.serving _ _ (advance-Told inp p.round p.sup) h
Step-IsHeard (shares p sv lan token) h =
    IsHeard-Told p.phase p.serving (seen_of p.sup p.round) (seen_of sv p.round) (inr (cc)) h
Step-IsHeard (accepts p c lan on) h =
    IsHeard-set_conns p.phase (seen_of p.sup p.round) _ p.serving h
Step-IsHeard (closes p c) h = IsHeard-set_conns p.phase (seen_of p.sup p.round) _ p.serving h
Step-IsHeard (watches p was now) h = IsHeard-set_conns p.phase (seen_of p.sup p.round) _ p.serving h
Step-IsHeard (reads p e) h = inr refl
Step-IsHeard (binds p want succeeds e) h = (
  IsHeard-wants (seen_of p.sup p.round) p.serving e h,
  serve_round-Settled want succeeds p.serving,
)
Step-IsHeard (checks p want e token) h = tt
Step-IsHeard (retried p want e due) h = tt
Step-IsHeard (ends p want w e over) h = tt

Reach-IsHeard :
    {origin : ℕ → LanSnapshot} (sv : Supervisor) (r0 : Round) (t : Tracker) {q : Pair}
    → Reach origin (begin sv r0 t) q
    → IsHeard q.phase (seen_of q.sup q.round) q.serving
Reach-IsHeard sv r0 t here = tt
Reach-IsHeard sv r0 t (next r step) = Step-IsHeard step (Reach-IsHeard sv r0 t r)

-- No change of the LAN is missed, however the supervisor and `serveLAN` take turns: where
-- `serveLAN` waits, no token waits and none is about to be put, the listener is bound to the current LAN, or there is no
-- listener, and it is retried exactly if there is a LAN.
pub reach-Settled :
    {origin : ℕ → LanSnapshot} (sv : Supervisor) (r0 : Round) (t : Tracker) {q : Pair}
    (want : LanSnapshot)
    → Reach origin (begin sv r0 t) q
    → q.phase ≡ waits want
    → q.sup.shared.lan_check ≡ false
    → is_telling q.round ≡ false
    → Settled (current q) q.serving × (want ≡ current q)
reach-Settled sv r0 t {q} want r e quiet told =
    let (heard, settled) =
      subst (λ ph. IsHeard ph (seen_of q.sup q.round) q.serving) e (Reach-IsHeard sv r0 t r) in
    elim heard [
      | inl token ↦ absurd (ground (arith, token, quiet, told))
      | inr same ↦ (subst (λ w. Settled w q.serving) same settled, same)
    ]
