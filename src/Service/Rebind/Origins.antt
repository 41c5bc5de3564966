-- ===== src/Service/Rebind/Origins.antt =====
-- No connection of an earlier network is left once the listener has caught up.
use cisco_socks_server.Prelude.{
  ℕ, Bool, true, false, not, ◌&&◌, List, [], ◌∷◌, Option, none, some, ◌==◌, ◌≡◌, refl, sym, subst,
  ap, ◌∙◌, ◌⊎◌, inl, inr, All, All-map, Option-cases, Bool-cases,
}
use cisco_socks_server.Service.State.{LanSnapshot, snapshot_eq}
use cisco_socks_server.Service.Supervisor.{Supervisor}
use cisco_socks_server.Service.Supervisor.Network.{snapshot_eq_iff}
use cisco_socks_server.Service.Conns.{Tracker, delete, add, remove, close_all, watch_vpn}
use cisco_socks_server.Service.Conns.Drop.{IsLocal}
use cisco_socks_server.Service.Proxy.{accept_round}
use cisco_socks_server.Service.Listener.{Serving, serve_round}
use cisco_socks_server.Service.Listener.Bound.{
  serve_round_drops, serve_round_same, serve_round-conns_none,
}
use cisco_socks_server.Service.Round.{Round}
use cisco_socks_server.Service.Round.Told.{is_telling}
use cisco_socks_server.Service.Rebind.{
  waits, returned, Pair, current, set_conns, Step, ticked, shares, accepts, closes, watches, reads,
  binds, checks, retried, ends, Reach, here, next, begin,
}
use cisco_socks_server.Service.Rebind.Wakeups.{Settled, reach-Settled}

module _ (origin : ℕ → LanSnapshot) where
  -- A connection of the LAN listener was accepted on the LAN that it is bound to.
  abbrev IsFrom : Option LanSnapshot → ℕ × Bool → Type 0
  IsFrom bound (c, lan) = lan ≡ true → bound ≡ some (origin c)

  abbrev pub IsOn : LanSnapshot → ℕ × Bool → Type 0
  IsOn now (c, lan) = lan ≡ true → origin c ≡ now

  IsLocal-IsFrom : (bound : Option LanSnapshot) (k : ℕ × Bool) → IsLocal k → IsFrom bound k
  IsLocal-IsFrom bound (c, lan) h = λ e. absurd (cc (h, e))

  unbound-IsFrom : (bound : Option LanSnapshot) (k : ℕ × Bool) → IsFrom none k → IsFrom bound k
  unbound-IsFrom bound (c, lan) h = λ e. absurd (cc (h e))

  IsFrom-IsOn : (now : LanSnapshot) (k : ℕ × Bool) → IsFrom (some now) k → IsOn now k
  IsFrom-IsOn now (c, lan) h = λ e. cc (h e)

  delete-IsFrom :
      (bound : Option LanSnapshot) (c : ℕ) (cs : List (ℕ × Bool))
      → All (IsFrom bound) cs
      → All (IsFrom bound) (delete c cs)
  unfolding delete
  delete-IsFrom bound c [] h = h
  delete-IsFrom bound c ((d, lan) ∷ cs) h = elim (Bool-cases (d == c)) [
    | inl e ↦ rw e (delete-IsFrom bound c cs h.1)
    | inr e ↦ rw e (h.0, delete-IsFrom bound c cs h.1)
  ]

  abbrev AllFrom : Serving → Type 0
  AllFrom s = All (IsFrom s.bound) s.conns.conns

  serve_round-AllFrom :
      (want : LanSnapshot) (succeeds : Bool) (s : Serving)
      → AllFrom s
      → AllFrom (serve_round want succeeds s)
  serve_round-AllFrom want succeeds s h = elim (Option-cases s.bound) [
    | inl e ↦
        subst (All (IsFrom (serve_round want succeeds s).bound))
          (sym (ap (λ (t : Tracker). t.conns) (serve_round-conns_none want succeeds s e)))
          (All-map (unbound-IsFrom _) s.conns.conns (subst (λ b. All (IsFrom b) s.conns.conns) e h))
    | inr (b, e) ↦ elim (Bool-cases (snapshot_eq b want)) [
      | inl same ↦
          subst AllFrom
            (sym (serve_round_same want succeeds s (e ∙ ap some ((snapshot_eq_iff b want).0 same))))
            h
      | inr other ↦
          All-map (IsLocal-IsFrom _) _
            (serve_round_drops want b succeeds s e
              (λ same. absurd (cc (other, (snapshot_eq_iff b want).1 same)))).1
    ]
  ]

  watch_vpn-AllFrom :
      (was now : Bool) (s : Serving)
      → AllFrom s
      → AllFrom (set_conns (watch_vpn (was, s.conns) now).1 s)
  unfolding watch_vpn close_all
  watch_vpn-AllFrom was now s h = elim (Bool-cases (was && not now)) [
    | inl lost ↦ rw lost tt
    | inr kept ↦ rw kept h
  ]

  -- Unless `serveLAN` has returned.
  abbrev IsPure : Pair → Type 0
  IsPure p = (p.phase ≡ returned) ⊎ AllFrom p.serving

  Step-IsPure : {p q : Pair} → Step origin p q → IsPure p → IsPure q
  unfolding accept_round add remove
  Step-IsPure (ticked p inp) h = h
  Step-IsPure (shares p sv lan token) h = h
  Step-IsPure (accepts p c lan on) (inl e) = inl e
  Step-IsPure (accepts p c lan on) (inr h) =
      inr (on, delete-IsFrom p.serving.bound c p.serving.conns.conns h)
  Step-IsPure (closes p c) (inl e) = inl e
  Step-IsPure (closes p c) (inr h) = inr (delete-IsFrom p.serving.bound c p.serving.conns.conns h)
  Step-IsPure (watches p was now) (inl e) = inl e
  Step-IsPure (watches p was now) (inr h) = inr (watch_vpn-AllFrom was now p.serving h)
  Step-IsPure (reads p e) (inl e') = absurd (cc (e, e'))
  Step-IsPure (reads p e) (inr h) = inr h
  Step-IsPure (binds p want succeeds e) (inl e') = absurd (cc (e, e'))
  Step-IsPure (binds p want succeeds e) (inr h) =
      inr (serve_round-AllFrom want succeeds p.serving h)
  Step-IsPure (checks p want e token) (inl e') = absurd (cc (e, e'))
  Step-IsPure (checks p want e token) (inr h) = inr h
  Step-IsPure (retried p want e due) (inl e') = absurd (cc (e, e'))
  Step-IsPure (retried p want e due) (inr h) = inr h
  Step-IsPure (ends p want w e over) h = inl refl

  Reach-IsPure :
      (sv : Supervisor) (r0 : Round) (t : Tracker) {q : Pair}
      → All IsLocal t.conns
      → Reach origin (begin sv r0 t) q
      → IsPure q
  Reach-IsPure sv r0 t local here = inr (All-map (IsLocal-IsFrom none) t.conns local)
  Reach-IsPure sv r0 t local (next r step) = Step-IsPure step (Reach-IsPure sv r0 t local r)

  Settled-IsOn :
      (s : Serving) (want : LanSnapshot)
      → AllFrom s
      → Settled want s
      → All (IsOn want) s.conns.conns
  Settled-IsOn s want h (inl (bound, _)) =
      All-map (IsFrom-IsOn want) s.conns.conns (subst (λ b. All (IsFrom b) s.conns.conns) bound h)
  Settled-IsOn s want h (inr (unbound, _)) =
      All-map (λ k from. IsFrom-IsOn want k (unbound-IsFrom (some want) k from)) s.conns.conns
        (subst (λ b. All (IsFrom b) s.conns.conns) unbound h)

  -- However the supervisor, `serveLAN` and the connections take turns, between any two parts of a
  -- round of the supervisor too: where `serveLAN` waits, no token waits in `lanCheck` and the
  -- supervisor is not between storing a LAN and calling `notifyLANCheck`, the listener is bound to
  -- the current LAN, or there is no listener, and it is retried exactly if there is a LAN; and every
  -- connection of the LAN listener that is still tracked was accepted on the current LAN. At the
  -- start the tracker holds no connection of the LAN listener.
  pub serve_lan_follows :
      (sv : Supervisor) (r0 : Round) (t : Tracker) {q : Pair} (want : LanSnapshot)
      → All IsLocal t.conns
      → Reach origin (begin sv r0 t) q
      → q.phase ≡ waits want
      → q.sup.shared.lan_check ≡ false
      → is_telling q.round ≡ false
      → Settled (current q) q.serving × All (IsOn (current q)) q.serving.conns.conns
  serve_lan_follows sv r0 t {q} want local r e quiet told =
      let (settled, _) = reach-Settled sv r0 t want r e quiet told in
      elim (Reach-IsPure sv r0 t local r) [
        | inl over ↦ absurd (cc (e, over))
        | inr h ↦ (settled, Settled-IsOn q.serving (current q) h settled)
      ]
