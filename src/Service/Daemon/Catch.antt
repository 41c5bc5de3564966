-- ===== src/Service/Daemon/Catch.antt =====
-- internal/service/lan.go: the way of `serveLAN` to the current LAN, from any point of its loop.
use cisco_socks_server.Prelude.{
  ℕ, true, false, not, some, ◌≡◌, ◌≢◌, refl, ap, sym, subst, ◌∙◌, inl, inr, arith, is_empty,
  Bool-cases,
}
use cisco_socks_server.Net.Addr.{V6Text}
use cisco_socks_server.Service.State.{Options, LanSnapshot, lan_snapshot}
use cisco_socks_server.Service.Listener.{Serving, serve_round, retries}
use cisco_socks_server.Service.Listener.Bound.{serve_round_bound}
use cisco_socks_server.Service.Pinner.{PinOps}
use cisco_socks_server.Service.Rebind.{Phase, at_head, wants, waits, returned}
use cisco_socks_server.Service.Stages.{Group, serving, Daemon, launch}
use cisco_socks_server.Service.Daemon.{Reach, here, next, reads, binds, checks, retried}
use cisco_socks_server.Service.Daemon.Lan.{waits-Settled}
use cisco_socks_server.Service.Daemon.Runs.{Leads, after}

round_binds :
    (want : LanSnapshot) (s : Serving)
    → is_empty want.iface ≡ false
    → (serve_round want true s).bound ≡ some want
round_binds want s there = elim (serve_round_bound want true s) [
  | inl (bound, _) ↦ bound
  | inr (_, _, inl nameless) ↦ absurd (ground (arith, there, nameless))
  | inr (_, _, inr fails) ↦ absurd (cc fails)
]

module _ {W : Type 0} (ops : PinOps W) ⦃v : V6Text⦄ (opts : Options) (origin : ℕ → LanSnapshot)
    (now : LanSnapshot) (there : is_empty now.iface ≡ false) (w : W) where
  -- This is the current LAN, and the listener is bound to it.
  abbrev IsCaught : Daemon W → Type 0
  IsCaught d = (lan_snapshot d.sup.shared.status ≡ now) × (d.listener.bound ≡ some now)

  abbrev Catches : Daemon W → Type 0
  Catches d = Leads ops opts origin IsCaught d

  from_wants :
      (d : Daemon W) (g : Group)
      → d.proxy ≡ serving g
      → g.lan ≡ wants now
      → lan_snapshot d.sup.shared.status ≡ now
      → Catches d
  from_wants d g p at same =
      after ops opts origin IsCaught (binds d g now true p at)
        (_, here, (same, round_binds now d.listener there))

  from_head :
      (d : Daemon W) (g : Group)
      → d.proxy ≡ serving g
      → g.lan ≡ at_head
      → lan_snapshot d.sup.shared.status ≡ now
      → Catches d
  from_head d g p at same =
      after ops opts origin IsCaught (reads d g p at) (from_wants _ _ refl (ap wants same) same)

  retry :
      {want cur : LanSnapshot} (s : Serving)
      → want ≡ cur
      → cur ≡ now
      → retries cur s ≡ not (is_empty cur.iface)
      → retries want s ≡ true
  retry s current same due =
      subst (λ l. retries l s ≡ true) (sym current)
        (due ∙ ap (λ (l : LanSnapshot). not (is_empty l.iface)) same ∙ ap not there)

  from_waits :
      {d : Daemon W} (g : Group) (want : LanSnapshot)
      → Reach ops opts origin (launch opts w) d
      → d.proxy ≡ serving g
      → g.lan ≡ waits want
      → lan_snapshot d.sup.shared.status ≡ now
      → Catches d
  from_waits {d} g want r p at same = elim (Bool-cases d.sup.shared.lan_check) [
    | inl token ↦
        after ops opts origin IsCaught (checks d g want p at token) (from_head _ _ refl refl same)
    | inr quiet ↦ elim (waits-Settled origin ops opts w g want r p at quiet).0 [
      | inl (bound, _) ↦ (d, here, (same, bound ∙ ap some same))
      | inr (_, due) ↦
          after ops opts origin IsCaught
            (retried d g want p at
              (retry d.listener (waits-Settled origin ops opts w g want r p at quiet).1 same due))
            (from_head _ _ refl refl same)
    ]
  ]

  from_phase :
      {d : Daemon W} (g : Group) (phase : Phase)
      → Reach ops opts origin (launch opts w) d
      → d.proxy ≡ serving g
      → g.lan ≡ phase
      → phase ≢ returned
      → lan_snapshot d.sup.shared.status ≡ now
      → Catches d
  from_phase {d} g at_head r p at on same = from_head d g p at same
  from_phase {d} g (wants want) r p at on same =
      let step = binds d g want true p at in
      after ops opts origin IsCaught step (from_waits _ want (next r step) refl refl same)
  from_phase g (waits want) r p at on same = from_waits g want r p at same
  from_phase g returned r p at on same = absurd (on refl)

module _ {W : Type 0} (ops : PinOps W) ⦃v : V6Text⦄ (opts : Options)
    (origin : ℕ → LanSnapshot) where
  -- The LAN listener can always catch up: from every state that the service gets to in which
  -- `serveLAN` has not returned and there is a LAN, wherever `serveLAN` stands and however old the
  -- LAN is that it holds, some turns of the goroutines keep the LAN and bind the listener to it.
  pub daemon_catches_up :
      (w : W) {d : Daemon W} (g : Group)
      → Reach ops opts origin (launch opts w) d
      → d.proxy ≡ serving g
      → g.lan ≢ returned
      → let now = lan_snapshot d.sup.shared.status in
        is_empty now.iface ≡ false
        → (e : Daemon W) × Reach ops opts origin d e
          × (lan_snapshot e.sup.shared.status ≡ now)
          × (e.listener.bound ≡ some now)
  daemon_catches_up w {d} g r p on there =
      let (e, run, caught) =
        from_phase ops opts origin (lan_snapshot d.sup.shared.status) there w g g.lan r p refl on
          refl in
      (e, run, caught.0, caught.1)
