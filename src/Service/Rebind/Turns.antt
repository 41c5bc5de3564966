-- ===== src/Service/Rebind/Turns.antt =====
-- A round of the supervisor that nothing comes between.
use cisco_socks_server.Prelude.{ℕ, sym, subst, Bool-cases, inl, inr}
use cisco_socks_server.Net.Addr.{Addr}
use cisco_socks_server.Route.Lan.{Detected, found, no_lan, failed}
use cisco_socks_server.Service.State.{LanSnapshot}
use cisco_socks_server.Service.Listener.{Serving}
use cisco_socks_server.Service.Supervisor.{Supervisor, Input, tick, confirm_lan}
use cisco_socks_server.Service.Round.{
  Round, between, storing, telling, deciding, acting, finishing, exited, look_at, look, settle,
  advance, tick-parts,
}
use cisco_socks_server.Service.Rebind.{Phase, Pair, ticked, Reach, next}

-- A detection ends with a LAN to store, or with the answer of `cisco.Status` to read.
abbrev IsLooked : Round → Type 0
IsLooked (storing new addr) = Unit
IsLooked deciding = Unit
IsLooked between = ⊥
IsLooked telling = ⊥
IsLooked (acting st) = ⊥
IsLooked finishing = ⊥
IsLooked exited = ⊥

look_at-IsLooked :
    (cur new : LanSnapshot) (addr : Addr) (sv : Supervisor) → IsLooked (look_at cur new addr sv).1
unfolding look_at
look_at-IsLooked cur new addr sv = elim (Bool-cases (confirm_lan sv cur new).1) [
  | inl e ↦ rw e tt
  | inr e ↦ rw e tt
]

look-IsLooked : (d : Detected) (sv : Supervisor) → IsLooked (look d sv).1
unfolding look
look-IsLooked (found a iface) sv = look_at-IsLooked _ _ _ sv
look-IsLooked no_lan sv = tt
look-IsLooked failed sv = tt

module _ (origin : ℕ → LanSnapshot) (p : Pair) (s : Serving) (phase : Phase) where
  -- The supervisor is at one part of its round.
  abbrev At : Supervisor → Round → Type 0
  At sv r = Reach origin p (record { sup = sv; round = r; serving = s; phase = phase })

  settle-At :
      (inp : Input) (sv : Supervisor) (r : Round)
      → IsLooked r
      → At sv r
      → At (settle (sv, r)) deciding
  unfolding advance settle
  settle-At inp sv (storing new addr) looked run =
      Reach.next (Reach.next run (ticked _ inp)) (ticked _ inp)
  settle-At inp sv deciding looked run = run
  settle-At inp sv between looked run = absurd looked
  settle-At inp sv telling looked run = absurd looked
  settle-At inp sv (acting st) looked run = absurd looked
  settle-At inp sv finishing looked run = absurd looked
  settle-At inp sv exited looked run = absurd looked

  -- A whole round is a run of its parts.
  pub tick-At : (inp : Input) (sv : Supervisor) → At sv between → At (tick inp sv).0 between
  unfolding advance
  tick-At inp sv run =
      let looked =
        settle-At inp (look inp.detected sv).0 (look inp.detected sv).1
          (look-IsLooked inp.detected sv) (next run (ticked _ inp)) in
      subst (λ u. At u between) (sym (tick-parts inp sv))
        (next (next (next looked (ticked _ inp)) (ticked _ inp)) (ticked _ inp))
