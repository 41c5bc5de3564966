-- ===== src/Tests/Bind.antt =====
-- internal/service/bind_darwin.go: a system with one interface and one free socket.
use cisco_socks_server.Prelude.{
  ℕ, Bool, true, false, Option, none, some, ◌≡◌, refl, str_eq, ◌==◌, if◌then◌else◌, subst, sym,
  arith,
}
use cisco_socks_server.Service.Bind.{
  Sockets, IsDocumented, bind_socket, listen_bound, listen_bound_sets,
}
use cisco_socks_server.Tests.Samples.{en0}

-- The value of IP_BOUND_IF of each socket.
abbrev Bindings : Type 0
Bindings = ℕ → Option ℕ

abbrev set_option : ℕ → ℕ → Bindings → Bindings
set_option fd index w g = if g == fd then some index else w g

abbrev listened : Bool × Bindings → Option ℕ × Bindings
listened (true, w) = (some 7, w)
listened (false, w) = (none, w)

abbrev sample_net : Sockets Bindings
sample_net = record {
  interface_by_name = λ iface w. if str_eq iface en0 then some 4 else none;
  control = λ c f w. let (set, w') = f c w in ((true, set), w');
  set_bound_if = λ fd index w. (true, set_option fd index w);
  listen = λ ctl network address w. listened (ctl 7 w);
}

abbrev option_at : ℕ → Bindings → Option ℕ
option_at fd w = w fd

set_option-same : (fd index : ℕ) (w : Bindings) → set_option fd index w fd ≡ some index
set_option-same fd index w = ground arith

listened-set :
    (r : Bool × Bindings) (l fd : ℕ)
    → (listened r).0 ≡ some l
    → (l ≡ 7) × (r.0 ≡ true) × (option_at fd (listened r).1 ≡ option_at fd r.1)
listened-set (true, w) l fd h = (cc h, refl, refl)
listened-set (false, w) l fd h = absurd (cc h)

sample_net-IsDocumented : IsDocumented sample_net option_at (λ c. c)
sample_net-IsDocumented = record {
  sets = λ fd index w _. set_option-same fd index w;
  runs = λ c f w _. (refl, refl);
  listens = λ ctl network address w l h.
      let (seven, fine, same) = listened-set (ctl 7 w) l 7 h in
      subst
        (λ k.
          (v : Bindings) × ((ctl k v).0 ≡ true)
          × (option_at k (listened (ctl 7 w)).1 ≡ option_at k (ctl k v).1))
        (sym seven) (w, fine, same);
}

listen_bound_sets_example :
    (index : ℕ) × (sample_net.interface_by_name en0 (λ fd. none) ≡ some index)
    × (option_at 7 (listen_bound sample_net en0 (λ fd. none)).1 ≡ some index)
unfolding listen_bound bind_socket str_eq
listen_bound_sets_example =
    listen_bound_sets sample_net option_at (λ c. c) sample_net-IsDocumented en0 (λ fd. none) 7 refl
