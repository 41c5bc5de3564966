-- ===== src/Service/Proxy/Life.antt =====
-- What `startProxy` returns and leaves behind.
use cisco_socks_server.Prelude.{
  true, false, [], none, ◌≡◌, refl, arith, ◌⊎◌, inl, inr, ◌↔◌, Bool-cases,
}
use cisco_socks_server.Service.State.{State}
use cisco_socks_server.Service.Conns.{Tracker, close_all}
use cisco_socks_server.Service.Proxy.{ProxyInput, start_proxy}

-- `startProxy` returns without an error exactly when the context ended before the VPN was up, or
-- it could listen and the group of its goroutines ended without one.
pub start_proxy_error :
    (inp : ProxyInput) (st : State) (t : Tracker)
    → ((start_proxy inp (st, t)).1 ≡ none)
      ↔ ((inp.ready ≡ false) ⊎ ((inp.listens ≡ true) × (inp.waited ≡ none)))
unfolding start_proxy
start_proxy_error inp st t = ground arith

-- However it ends, `startProxy` leaves the proxy marked as stopped, and once it has served there
-- is no connection left.
pub start_proxy_leaves :
    (inp : ProxyInput) (st : State) (t : Tracker)
    → ((start_proxy inp (st, t)).0.0.proxy_started ≡ false)
      × (((start_proxy inp (st, t)).0.1 ≡ t) ⊎ ((start_proxy inp (st, t)).0.1.conns ≡ []))
      × ((inp.ready ≡ false) ⊎ (inp.listens ≡ false) ⊎ ((start_proxy inp (st, t)).0.1.conns ≡ []))
unfolding start_proxy close_all
start_proxy_leaves inp st t = elim (Bool-cases inp.ready) [
  | inl ready ↦ elim (Bool-cases inp.listens) [
    | inl listens ↦ rw (ready, listens) (refl, inr refl, inr (inr refl))
    | inr deaf ↦ rw (ready, deaf) (refl, inl refl, inr (inl refl))
  ]
  | inr early ↦ rw early (refl, inl refl, inl refl)
]
