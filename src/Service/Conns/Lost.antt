-- ===== src/Service/Conns/Lost.antt =====
-- internal/service/proxy.go: the tracker over the life of the proxy. `acceptConns` adds a
-- connection and removes it when it ends, and `closeLAN` and `closeAll` come in between.
use cisco_socks_server.Prelude.{
  ℕ, Bool, true, false, not, ◌&&◌, ◌||◌, List, [], ◌∷◌, ◌++◌, ◌==◌, ◌≡◌, refl, arith,
}
use cisco_socks_server.Service.Conns.{
  Tracker, delete, add, remove, ids, close_all, accepted_on, close_lan, watch_vpn,
}

abbrev pub has : ℕ → List ℕ → Bool
has c [] = false
has c (d ∷ ds) = (d == c) || has c ds

-- What happens to the tracker.
pub data Event : Type 0 where
  accepted : ℕ → Bool → Event
  ended : ℕ → Event
  vpn_lost lan_changed : Event

abbrev pub after : Tracker → Event → Tracker
after t (accepted c lan) = add t c lan
after t (ended c) = remove t c
after t vpn_lost = (close_all t).0
after t lan_changed = (close_lan t).0

abbrev pub run : Tracker → List Event → Tracker
run t [] = t
run t (e ∷ es) = run (after t e) es

-- Whether a connection is accepted in the history, and does not end after that; the flag tells
-- whether it was before.
abbrev pub remains : ℕ → Bool → Event → Bool
remains c b (accepted d lan) = b || (d == c)
remains c b (ended d) = b && not (d == c)
remains c b _ = b

abbrev pub opened : ℕ → Bool → List Event → Bool
opened c b [] = b
opened c b (e ∷ es) = opened c (remains c b e) es

-- The connection is live, or was closed by the tracker.
abbrev tracked : ℕ → Tracker → Bool
tracked c t = has c (ids t.conns) || has c t.closed

has-append : (c : ℕ) (xs ys : List ℕ) → has c (xs ++ ys) ≡ (has c xs || has c ys)
has-append c [] ys = refl
has-append c (x ∷ xs) ys = ground (arith, has-append c xs ys)

has-delete :
    (c d : ℕ) (cs : List (ℕ × Bool)) → has c (ids (delete d cs)) ≡ (not (d == c) && has c (ids cs))
unfolding ids delete
has-delete c d [] = ground arith
has-delete c d ((e, lan) ∷ cs) = ground (arith, has-delete c d cs)

has-accepted_on :
    (c : ℕ) (cs : List (ℕ × Bool))
    → has c (ids cs) ≡ (has c (ids (accepted_on true cs)) || has c (ids (accepted_on false cs)))
unfolding ids accepted_on
has-accepted_on c [] = refl
has-accepted_on c ((e, true) ∷ cs) = ground (arith, has-accepted_on c cs)
has-accepted_on c ((e, false) ∷ cs) = ground (arith, has-accepted_on c cs)

after-tracked :
    (c : ℕ) (b : Bool) (t : Tracker) (e : Event)
    → (b ≡ true → tracked c t ≡ true)
    → remains c b e ≡ true
    → tracked c (after t e) ≡ true
unfolding add remove close_all close_lan ids
after-tracked c b t (accepted d lan) h r = ground (arith, has-delete c d t.conns)
after-tracked c b t (ended d) h r = ground (arith, has-delete c d t.conns)
after-tracked c b t vpn_lost h r = ground (arith, has-append c t.closed (ids t.conns))
after-tracked c b t lan_changed h r =
    ground
      (arith, has-append c t.closed (ids (accepted_on true t.conns)), has-accepted_on c t.conns)

run-tracked :
    (c : ℕ) (b : Bool) (t : Tracker) (es : List Event)
    → (b ≡ true → tracked c t ≡ true)
    → opened c b es ≡ true
    → tracked c (run t es) ≡ true
run-tracked c b t [] h o = h o
run-tracked c b t (e ∷ es) h o =
    run-tracked c (remains c b e) (after t e) es (after-tracked c b t e h) o

abbrev pub no_conns : Tracker
no_conns = record { conns = []; closed = [] }

-- When the VPN is lost, every connection that was accepted and has not ended is closed, and the
-- tracker holds none: in any history of the tracker no connection escapes it.
pub watch_vpn-closed :
    (es : List Event) (c : ℕ)
    → opened c false es ≡ true
    → let t = (watch_vpn (true, run no_conns es) false).1 in
      (has c t.closed ≡ true) × (t.conns ≡ [])
unfolding watch_vpn close_all
watch_vpn-closed es c o = (
  ground (
    arith,
    has-append c (run no_conns es).closed (ids (run no_conns es).conns),
    run-tracked c false no_conns es (λ e. absurd (ground (arith, e))) o,
  ),
  refl,
)
