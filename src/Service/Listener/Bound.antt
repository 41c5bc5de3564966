-- ===== src/Service/Listener/Bound.antt =====
-- The LAN listener never outlives the LAN that it was bound to.
use cisco_socks_server.Prelude.{
  Bool, false, not, [], none, some, is_empty, ◌≡◌, ◌≢◌, sym, subst, ◌∙◌, ◌⊎◌, inl, inr, arith,
  Option-cases, All,
}
use cisco_socks_server.Service.State.{LanSnapshot}
use cisco_socks_server.Service.Supervisor.Network.{snapshot_eq_iff}
use cisco_socks_server.Service.Conns.{close_lan}
use cisco_socks_server.Service.Conns.Drop.{IsLocal, close_lan_lem}
use cisco_socks_server.Service.Listener.{
  Serving, drop_stale, open_lan, bind_lan, serve_round, retries,
}

-- After each round the listener is bound to the LAN that is wanted, or there is none; and if there
-- is none while there is a LAN, then the bind failed just now and is tried again.
pub serve_round_bound :
    (want : LanSnapshot) (binds : Bool) (s : Serving)
    → let s' = serve_round want binds s in
      ((s'.bound ≡ some want) × (retries want s' ≡ false))
      ⊎ ((s'.bound ≡ none)
          × (retries want s' ≡ not (is_empty want.iface))
          × ((want.iface ≡ []) ⊎ (binds ≡ false)))
unfolding serve_round bind_lan drop_stale open_lan retries
serve_round_bound want binds s = elim (Option-cases s.bound) [
  | inl e ↦ ground (arith, e)
  | inr (b, e) ↦ ground (arith, e, snapshot_eq_iff b want)
]

bind_lan-conns :
    (want : LanSnapshot) (binds : Bool) (s : Serving) → (bind_lan want binds s).conns ≡ s.conns
unfolding bind_lan
bind_lan-conns want binds s = ground arith

-- Without a listener the connections stay.
pub serve_round-conns_none :
    (want : LanSnapshot) (binds : Bool) (s : Serving)
    → s.bound ≡ none
    → (serve_round want binds s).conns ≡ s.conns
unfolding serve_round drop_stale
serve_round-conns_none want binds s e =
    bind_lan-conns want binds (drop_stale want s) ∙ ground (arith, e)

drop_stale-conns :
    (want b : LanSnapshot) (s : Serving)
    → s.bound ≡ some b
    → b ≢ want
    → (drop_stale want s).conns ≡ (close_lan s.conns).0
unfolding drop_stale
drop_stale-conns want b s e other = ground (arith, e, snapshot_eq_iff b want)

-- When the LAN is another one than that of the listener, the round drops the connections that the
-- listener accepted, and no others are left but those of the loopback listener.
pub serve_round_drops :
    (want b : LanSnapshot) (binds : Bool) (s : Serving)
    → s.bound ≡ some b
    → b ≢ want
    → ((serve_round want binds s).conns ≡ (close_lan s.conns).0)
      × All IsLocal (serve_round want binds s).conns.conns
unfolding serve_round
serve_round_drops want b binds s e other =
    let dropped : (serve_round want binds s).conns ≡ (close_lan s.conns).0 =
      bind_lan-conns want binds _ ∙ drop_stale-conns want b s e other in
    (dropped, subst (λ t. All IsLocal t.conns) (sym dropped) (close_lan_lem s.conns).0)

-- While the LAN is the one that the listener is bound to, nothing changes.
pub serve_round_same :
    (want : LanSnapshot) (binds : Bool) (s : Serving)
    → s.bound ≡ some want
    → serve_round want binds s ≡ s
unfolding serve_round drop_stale bind_lan
serve_round_same want binds s e = ground (arith, e, snapshot_eq_iff want want)
