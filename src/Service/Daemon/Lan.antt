-- ===== src/Service/Daemon/Lan.antt =====
-- What the whole service shows of the LAN listener and the connections: a run of `Service/Rebind`.
use cisco_socks_server.Prelude.{ℕ, Bool, true, false, [], none, ◌≡◌, refl, sym, subst, arith, All}
use cisco_socks_server.Net.Addr.{V6Text}
use cisco_socks_server.Service.State.{Options, LanSnapshot, lan_snapshot}
use cisco_socks_server.Service.Pinner.{PinOps}
use cisco_socks_server.Service.Conns.{Tracker, remove, close_all}
use cisco_socks_server.Service.Conns.Drop.{IsLocal, remove-empty}
use cisco_socks_server.Service.Listener.{Serving, Wakeup, wake}
use cisco_socks_server.Service.Supervisor.{Supervisor, Input, tick, shutdown, set_connected}
use cisco_socks_server.Service.Rebind
use cisco_socks_server.Service.Rebind.{
  Pair, Phase, at_head, wants, waits, returned, begin, next_phase, next_serving, set_conns,
  take_check,
}
use cisco_socks_server.Service.Rebind.Wakeups.{Settled, reach-Settled}
use cisco_socks_server.Service.Rebind.Shut.{Reach-IsShut}
use cisco_socks_server.Service.Rebind.Turns.{tick-At}
use cisco_socks_server.Service.Round.{between}
use cisco_socks_server.Service.Stages.{
  watched, stopped, Daemon, Group, ProxyStage, proxy_waiting, serving, proxy_stopped, WakesBy,
  launch,
}
use cisco_socks_server.Service.Daemon.{
  Step, Reach, here, next, cancels, ticked, exits, opens, declines, ends_group, closes_proxy,
  accepts, accepts_lan, stops_accepting, closes, greets, watches, stops_watching, reads, binds,
  checks, retried, ends_serving, opens_dns, closes_dns, opens_pinner, closes_pinner, expires,
  visits, sniffs, closes_sniffer,
}

WakesBy-returned :
    (done : Bool) (s : Serving) (w : Wakeup)
    → WakesBy done s.bound w
    → next_phase (wake w s) ≡ returned
unfolding wake
WakesBy-returned done s Wakeup.ctx_done h = refl
WakesBy-returned done s Wakeup.lan_checked h = elim h [ ]
WakesBy-returned done s Wakeup.retried h = elim h [ ]
WakesBy-returned done s (Wakeup.loop_ended e) h = refl

shutdown-lan :
    (sv : Supervisor)
    → (lan_snapshot (shutdown sv).shared.status ≡ lan_snapshot sv.shared.status)
      × ((shutdown sv).shared.lan_check ≡ sv.shared.lan_check)
unfolding shutdown set_connected lan_snapshot
shutdown-lan sv = ground arith

module _ (origin : ℕ → LanSnapshot) where
  abbrev pair_of : Supervisor → Serving → Group → Pair
  pair_of sv l g = record { sup = sv; round = between; serving = l; phase = g.lan }

  -- What is there before the proxy serves, while it does, and after.
  abbrev pub Fits : ProxyStage → Supervisor → Serving → Type 0
  Fits proxy_waiting sv l = (l.conns.conns ≡ []) × (l.bound ≡ none)
  Fits (serving g) sv l =
      (old : Supervisor) × (t : Tracker) × All IsLocal t.conns
      × Rebind.Reach origin (begin old between t) (pair_of sv l g)
  Fits proxy_stopped sv l = (l.conns.conns ≡ []) × (l.bound ≡ none)

  share-Fits :
      (p : ProxyStage) (sv sv' : Supervisor) (l : Serving)
      → lan_snapshot sv'.shared.status ≡ lan_snapshot sv.shared.status
      → sv'.shared.lan_check ≡ sv.shared.lan_check
      → Fits p sv l
      → Fits p sv' l
  share-Fits proxy_waiting sv sv' l lan token h = h
  share-Fits (serving g) sv sv' l lan token (old, t, local, r) =
      (old, t, local, Rebind.next r (Rebind.shares (pair_of sv l g) sv' lan token))
  share-Fits proxy_stopped sv sv' l lan token h = h

  tick-Fits :
      (p : ProxyStage) (inp : Input) (sv : Supervisor) (l : Serving)
      → Fits p sv l
      → Fits p (tick inp sv).0 l
  tick-Fits proxy_waiting inp sv l h = h
  tick-Fits (serving g) inp sv l (old, t, local, r) =
      (old, t, local, tick-At origin (begin old between t) l g.lan inp sv r)
  tick-Fits proxy_stopped inp sv l h = h

  remove-Fits :
      (p : ProxyStage) (c : ℕ) (sv : Supervisor) (l : Serving)
      → Fits p sv l
      → Fits p sv (set_conns (remove l.conns c) l)
  remove-Fits proxy_waiting c sv l (h, unbound) = (remove-empty c l.conns h, unbound)
  remove-Fits (serving g) c sv l (old, t, local, r) =
      (old, t, local, Rebind.next r (Rebind.closes (pair_of sv l g) c))
  remove-Fits proxy_stopped c sv l (h, unbound) = (remove-empty c l.conns h, unbound)

  -- A step of the proxy while it serves.
  goes :
      {sv sv' : Supervisor} {l l' : Serving} (g : Group) (phase : Phase) (p : ProxyStage)
      → p ≡ serving g
      → Rebind.Step origin
          (pair_of sv l g)
          (record { sup = sv'; round = between; serving = l'; phase = phase })
      → Fits p sv l
      → Fits (serving (record g { lan = phase })) sv' l'
  goes {sv} {l} g phase p e step h =
      let (old, t, local, r) = subst (λ q. Fits q sv l) e h in (old, t, local, Rebind.next r step)

  -- A step of the group that the LAN does not show.
  stays_on :
      (p : ProxyStage) (sv : Supervisor) (l : Serving) (g g' : Group)
      → p ≡ serving g
      → g'.lan ≡ g.lan
      → Fits p sv l
      → Fits (serving g') sv l
  stays_on p sv l g g' e same h =
      let (old, t, local, r) = subst (λ q. Fits q sv l) e h in
      (
        old,
        t,
        local,
        subst
            (λ ph.
              Rebind.Reach origin (begin old between t)
                (record { sup = sv; round = between; serving = l; phase = ph }))
            (sym same) r,
      )

  -- Another goroutine of the proxy adds or drops connections.
  conns-Fits :
      (d_proxy : ProxyStage) (g : Group) (sv : Supervisor) (l : Serving) (t' : Tracker)
      → d_proxy ≡ serving g
      → Rebind.Step origin (pair_of sv l g) (pair_of sv (set_conns t' l) g)
      → Fits d_proxy sv l
      → Fits d_proxy sv (set_conns t' l)
  conns-Fits p g sv l t' e step h =
      subst (λ q. Fits q sv (set_conns t' l)) (sym e) (goes g g.lan p e step h)

  close-Fits :
      (p : ProxyStage) (g : Group) (sv : Supervisor) (l : Serving)
      → p ≡ serving g
      → g.lan ≡ returned
      → Fits p sv l
      → Fits proxy_stopped sv (set_conns (close_all l.conns).0 l)
  unfolding close_all
  close-Fits p g sv l e over h =
      let (old, t, local, r) = subst (λ q. Fits q sv l) e h in
      (refl, Reach-IsShut old between t r over)

  module _ {W : Type 0} (ops : PinOps W) ⦃v : V6Text⦄ (opts : Options) where
    abbrev FitsIn : Daemon W → Type 0
    FitsIn d = Fits d.proxy d.sup d.listener

    Step-Fits : {d e : Daemon W} → Step ops opts origin d e → FitsIn d → FitsIn e
    unfolding lan_snapshot
    Step-Fits (cancels d) h = h
    Step-Fits (ticked d inp up) h = tick-Fits d.proxy inp d.sup d.listener h
    Step-Fits (exits d up done) h =
        share-Fits d.proxy d.sup (shutdown d.sup) d.listener (shutdown-lan d.sup).0
          (shutdown-lan d.sup).1 h
    Step-Fits (opens d p ready) h =
        let (none_yet, _) = subst (λ q. Fits q d.sup d.listener) p h in
        (_, d.listener.conns, rw none_yet tt, Rebind.here)
    Step-Fits (declines d p woken) h = subst (λ q. Fits q d.sup d.listener) p h
    Step-Fits (ends_group d g p why) h =
        stays_on d.proxy d.sup d.listener g (record g { ctx_done = true }) p refl h
    Step-Fits (closes_proxy d g p (loopback, watcher, lan)) h =
        close-Fits d.proxy g d.sup d.listener p lan h
    Step-Fits (accepts d g c p up) h =
        conns-Fits d.proxy g d.sup d.listener _ p
          (Rebind.accepts (pair_of d.sup d.listener g) c false (λ e. cc)) h
    Step-Fits (accepts_lan d g c p bound) h =
        conns-Fits d.proxy g d.sup d.listener _ p
          (Rebind.accepts (pair_of d.sup d.listener g) c true (λ e. bound)) h
    Step-Fits (stops_accepting d g a err p now over) h =
        stays_on d.proxy d.sup d.listener g (record g { loopback = stopped }) p refl h
    Step-Fits (closes d c) h = remove-Fits d.proxy c d.sup d.listener h
    Step-Fits (greets d lan state peer now was) h =
        share-Fits d.proxy d.sup _ d.listener refl refl h
    Step-Fits (watches d g p up) h =
        stays_on (serving g) d.sup _ g
          (record g { was_connected = (watched g d.sup.shared.status d.listener.conns).0 }) refl
          refl
          (goes g g.lan d.proxy p
            (Rebind.watches (pair_of d.sup d.listener g) g.was_connected
              d.sup.shared.status.cisco_connected)
            h)
    Step-Fits (stops_watching d g p done) h =
        stays_on d.proxy d.sup d.listener g (record g { watcher = stopped }) p refl h
    Step-Fits (reads d g p at) h =
        goes g _ d.proxy p (Rebind.reads (pair_of d.sup d.listener g) at) h
    Step-Fits (binds d g want succeeds p at) h =
        goes g _ d.proxy p (Rebind.binds (pair_of d.sup d.listener g) want succeeds at) h
    Step-Fits (checks d g want p at token) h =
        goes g _ d.proxy p (Rebind.checks (pair_of d.sup d.listener g) want at token) h
    Step-Fits (retried d g want p at due) h =
        goes g _ d.proxy p (Rebind.retried (pair_of d.sup d.listener g) want at due) h
    Step-Fits (ends_serving d g want w p at by) h =
        goes g _ d.proxy p
          (Rebind.ends (pair_of d.sup d.listener g) want w at
            (WakesBy-returned g.ctx_done d.listener w by))
          h
    Step-Fits (opens_dns d p ready) h = share-Fits d.proxy d.sup _ d.listener refl refl h
    Step-Fits (closes_dns d why) h = share-Fits d.proxy d.sup _ d.listener refl refl h
    Step-Fits (opens_pinner d p ready) h = h
    Step-Fits (closes_pinner d done) h = h
    Step-Fits (expires d now live up) h = share-Fits d.proxy d.sup _ d.listener refl refl h
    Step-Fits (visits d state c up was on named) h =
        share-Fits d.proxy d.sup _ d.listener refl refl h
    Step-Fits (sniffs d state line ip mac now up was e) h =
        share-Fits d.proxy d.sup _ d.listener refl refl h
    Step-Fits (closes_sniffer d done) h = h

    pub Reach-Fits : (w : W) {d : Daemon W} → Reach ops opts origin (launch opts w) d → FitsIn d
    Reach-Fits w here = (refl, refl)
    Reach-Fits w (next r step) = Step-Fits step (Reach-Fits w r)

    -- Between two rounds of the supervisor, where no check is due, `serveLAN` waits with the current
    -- LAN, and has settled on it.
    pub waits-Settled :
        (w : W) {d : Daemon W} (g : Group) (want : LanSnapshot)
        → Reach ops opts origin (launch opts w) d
        → d.proxy ≡ serving g
        → g.lan ≡ waits want
        → d.sup.shared.lan_check ≡ false
        → let now = lan_snapshot d.sup.shared.status in Settled now d.listener × (want ≡ now)
    waits-Settled w {d} g want r p at quiet =
        let (old, t, local, run) = subst (λ q. Fits q d.sup d.listener) p (Reach-Fits w r) in
        reach-Settled old between t want run at quiet refl
