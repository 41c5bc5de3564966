-- ===== src/Service/Bind.antt =====
-- internal/service/bind_darwin.go and bind_other.go: `listenBoundToInterface`. Whether it gives a
-- listener is what `open_lan` of `Service/Listener` takes. Sockets are the system's.
use cisco_socks_server.Prelude.{
  ℕ, Bool, true, ◌&&◌, Option, none, some, Bytes, bytes, ◌≡◌, sym, ap, arith, ◌∙◌, Option-cases,
  inl, inr,
}

-- What the function uses of packages net, syscall and unix, on a world `W`. A socket and a listener
-- are numbers; a call gives the new world with its result, a Boolean says that there is no error.
-- `control` is `RawConn.Control`: whether it succeeds, and what its argument left in `serr`.
pub record Sockets (W : Type 0) : Type 0 where
  pub interface_by_name : Bytes → W → Option ℕ
  pub control : ℕ → (ℕ → W → Bool × W) → W → (Bool × Bool) × W
  pub set_bound_if : ℕ → ℕ → W → Bool × W
  pub listen : (ℕ → W → Bool × W) → Bytes → Bytes → W → Option ℕ × W

-- `net.JoinHostPort("0.0.0.0", proxyPort)`
abbrev pub any_address : Bytes
any_address = bytes "0.0.0.0:8080"

module _ {W : Type 0} (net : Sockets W) where
  -- `ListenConfig.Control`
  unfoldable pub bind_socket : ℕ → ℕ → W → Bool × W
  bind_socket index c w =
      let ((fine, set), w') = net.control c (λ fd. net.set_bound_if fd index) w in (fine && set, w')

  -- `listenBoundToInterface` on darwin: the listener, unless there is an error.
  unfoldable pub listen_bound : Bytes → W → Option ℕ × W
  listen_bound iface w = elim (net.interface_by_name iface w) [
    | none ↦ (none, w)
    | some index ↦ net.listen (bind_socket index) (bytes "tcp4") any_address w
  ]

  -- The same elsewhere.
  unfoldable pub listen_unsupported : Bytes → W → Option ℕ × W
  listen_unsupported iface w = (none, w)

-- What the packages document, where `option_of` is the value of IP_BOUND_IF of a socket and `fd_of`
-- the descriptor of a connection: `Setsockopt` sets the option; `Control` without an error has
-- run its argument on the descriptor; and `Listen` gives a listener only if `Control` gave no error
-- for its socket, whose options stay what they are from there.
pub record IsDocumented {W : Type 0} (net : Sockets W) (option_of : ℕ → W → Option ℕ)
    (fd_of : ℕ → ℕ) : Type 0 where
  pub sets :
      (fd index : ℕ) (w : W)
      → (net.set_bound_if fd index w).0 ≡ true
      → option_of fd (net.set_bound_if fd index w).1 ≡ some index
  pub runs :
      (c : ℕ) (f : ℕ → W → Bool × W) (w : W)
      → (net.control c f w).0.0 ≡ true
      → ((net.control c f w).0.1 ≡ (f (fd_of c) w).0) × ((net.control c f w).1 ≡ (f (fd_of c) w).1)
  pub listens :
      (ctl : ℕ → W → Bool × W) (network address : Bytes) (w : W) (l : ℕ)
      → (net.listen ctl network address w).0 ≡ some l
      → (v : W) × ((ctl l v).0 ≡ true)
        × (option_of (fd_of l) (net.listen ctl network address w).1
            ≡ option_of (fd_of l) (ctl l v).1)

module _ {W : Type 0} (net : Sockets W) (option_of : ℕ → W → Option ℕ) (fd_of : ℕ → ℕ)
    (documented : IsDocumented net option_of fd_of) where
  bind_socket-sets :
      (index c : ℕ) (w : W)
      → (bind_socket net index c w).0 ≡ true
      → option_of (fd_of c) (bind_socket net index c w).1 ≡ some index
  unfolding bind_socket
  bind_socket-sets index c w fine =
      let (set, world) =
        documented.runs c (λ fd. net.set_bound_if fd index) w (ground (arith, fine)) in
      ap (option_of (fd_of c)) world
      ∙ documented.sets (fd_of c) index w (sym set ∙ ground (arith, fine))

  -- On darwin a listener of the LAN exists only on an interface that the system knows, and replies
  -- leave by that interface: IP_BOUND_IF of its socket is the index of the interface.
  pub listen_bound_sets :
      (iface : Bytes) (w : W) (l : ℕ)
      → (listen_bound net iface w).0 ≡ some l
      → (index : ℕ) × (net.interface_by_name iface w ≡ some index)
        × (option_of (fd_of l) (listen_bound net iface w).1 ≡ some index)
  unfolding listen_bound
  listen_bound_sets iface w l got = elim (Option-cases (net.interface_by_name iface w)) [
    | inl e ↦ absurd (cc (rw (e, listen_bound) at got))
    | inr (index, e) ↦
        let (v, fine, same) =
          documented.listens (bind_socket net index) (bytes "tcp4") any_address w l
            (rw (e, listen_bound) at got) in
        (index, e, rw (e, listen_bound) (same ∙ bind_socket-sets index l v fine))
  ]
