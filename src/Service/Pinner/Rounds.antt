-- ===== src/Service/Pinner/Rounds.antt =====
-- How long a client that has gone silent stays registered, over the rounds of the pinner.
use cisco_socks_server.Prelude.{
  ℕ, ◌+◌, ◌<◌, ◌≤◌, Bool, true, false, not, ◌||◌, List, [], some, Bytes, leb, is_empty,
  if◌then◌else◌, ◌≡◌, ◌⊎◌, inl, inr, arith, lookup, Bool-cases, if_elim,
}
use cisco_socks_server.Net.Addr.{V6Text}
use cisco_socks_server.Service.State.{State, LanClient, time_sub}
use cisco_socks_server.Service.Clients.{
  ClientEntry, Registry, new_client_registry, seen, reset_network, discovered_client_ttl,
}
use cisco_socks_server.Service.Pinner.Fresh.{
  Kept, IsFresh, expire-IsFresh, seen-IsFresh, reset_network-IsFresh, pin_all-IsFresh,
  new_client_registry-IsFresh,
}
use cisco_socks_server.Service.Pinner.{
  PinOps, Pinning, pin_clients, client_expire_interval, expire_round, pinner_round,
}

-- The service between two calls: the last expiry, what was live then, and the clock.
pub record Life (W : Type 0) : Type 0 where
  pub last : ℕ
  pub live : Bytes → Bool
  pub clock : ℕ
  pub pinning : Pinning W

abbrev due : ℕ → ℕ → Bool
due now last = leb client_expire_interval (time_sub now last)

module _ {W : Type 0} (ops : PinOps W) ⦃t : V6Text⦄ where
  -- A round of the pinner.
  abbrev pub after_round :
      (List (Bytes × Bytes) → List (Bytes × Bytes)) → ℕ → (Bytes → Bool) → State → Life W → Life W
  after_round order now live state l =
      let (last, pinning) = pinner_round ops order now live state (l.last, l.pinning) in
      record {
        last = last;
        live = if due now l.last then live else l.live;
        clock = now;
        pinning = pinning;
      }

  abbrev pub with_clients : Registry → Life W → Life W
  with_clients r l = let p = l.pinning in record l { pinning = record p { clients = r } }

  -- A round of the pinner, a client that is heard of, or a change of network, as the clock goes on.
  pub data Turn : Life W → Life W → Type 0 where
    rounds :
        (l : Life W) (order : List (Bytes × Bytes) → List (Bytes × Bytes)) (now : ℕ)
        (live : Bytes → Bool) (state : State)
        → l.clock ≤ now
        → Turn l (after_round order now live state l)
    hears :
        (l : Life W) (ip mac : Bytes) (now : ℕ)
        → l.clock ≤ now
        → Turn l (with_clients (seen l.pinning.clients ip mac now).0 (record l { clock = now }))
    moves : (l : Life W) → Turn l (with_clients (reset_network l.pinning.clients) l)

  pub data Lives (l : Life W) : Life W → Type 0 where
    here : Lives l l
    next : {m n : Life W} → Lives l m → Turn m n → Lives l n

  record IsKept (l : Life W) : Type 0 where
    fresh : IsFresh l.last l.live l.pinning.clients
    past : l.last ≤ l.clock

  -- What holds behind a round.
  abbrev IsCurrent : ℕ → (Bytes → Bool) → ℕ × Pinning W → Type 0
  IsCurrent now live (last, s) =
      IsFresh last live s.clients × (time_sub now last < client_expire_interval) × (last ≤ now)

  expire_round-IsCurrent :
      (now : ℕ) (live old : Bytes → Bool) (last : ℕ) (s : Pinning W)
      → IsFresh last old s.clients
      → last ≤ now
      → IsCurrent now (if due now last then live else old) (expire_round ops now live (last, s))
  unfolding expire_round time_sub
  expire_round-IsCurrent now live old last s h past = elim (Bool-cases (due now last)) [
    | inl over ↦ rw over (expire-IsFresh now live s.clients h.distinct, omega arith, omega arith)
    | inr early ↦ rw early (h, ground arith, past)
  ]

  pinner_round-IsCurrent :
      (order : List (Bytes × Bytes) → List (Bytes × Bytes)) (now : ℕ) (live old : Bytes → Bool)
      (state : State) (last : ℕ) (s : Pinning W)
      → IsFresh last old s.clients
      → last ≤ now
      → IsCurrent now
          (if due now last then live else old)
          (pinner_round ops order now live state (last, s))
  unfolding pinner_round pin_clients
  pinner_round-IsCurrent order now live old state last s h past =
      let (fresh, soon, before) = expire_round-IsCurrent now live old last s h past in
      if_elim (IsCurrent now _) (not state.cisco_connected || is_empty state.lan_interface) _ _
        (λ _. (fresh, soon, before)) λ _. (pin_all-IsFresh _ _ ops state _ _ fresh, soon, before)

  Turn-IsKept : {l m : Life W} → Turn l m → IsKept l → IsKept m
  Turn-IsKept (rounds l order now live state later) h =
      let (fresh, soon, past) =
        pinner_round-IsCurrent order now live l.live state l.last l.pinning h.fresh
          (omega (arith, h.past, later)) in
      record { fresh = fresh; past = past }
  Turn-IsKept (hears l ip mac now later) h = record {
    fresh =
        seen-IsFresh l.last l.live l.pinning.clients ip mac now (omega (arith, h.past, later))
          h.fresh;
    past = omega (arith, h.past, later);
  }
  Turn-IsKept (moves l) h = record {
    fresh = reset_network-IsFresh l.last l.live l.pinning.clients h.fresh;
    past = h.past;
  }

  -- `startPinner` begins with the clients of the configuration, and no expiry yet.
  abbrev pub begins : List LanClient → ℕ → W → Life W
  begins lan_clients clock w = record {
    last = 0;
    live = λ ip. false;
    clock = clock;
    pinning = record { clients = new_client_registry lan_clients; world = w; pins = [] };
  }

  Lives-IsKept :
      (lan_clients : List LanClient) (clock : ℕ) (w : W) {l : Life W}
      → Lives (begins lan_clients clock w) l
      → IsKept l
  Lives-IsKept lan_clients clock w here = record {
    fresh = new_client_registry-IsFresh lan_clients 0 (λ ip. false);
    past = omega arith;
  }
  Lives-IsKept lan_clients clock w (next h turn) =
      Turn-IsKept turn (Lives-IsKept lan_clients clock w h)

  -- The client is of the configuration, or had a live connection at the last expiry, or was seen
  -- less than the time to live and an interval ago.
  abbrev pub HasReason : Life W → Bytes → ClientEntry → Type 0
  HasReason l ip e =
      (e.static ≡ true)
      ⊎ (l.live ip ≡ true)
      ⊎ (time_sub l.clock e.last_seen < discovered_client_ttl + client_expire_interval)

  Kept-HasReason :
      (l : Life W) (ip : Bytes) (e : ClientEntry)
      → time_sub l.clock l.last < client_expire_interval
      → Kept l.last l.live ip e
      → HasReason l ip e
  unfolding time_sub
  Kept-HasReason l ip e soon (inl static) = inl static
  Kept-HasReason l ip e soon (inr (inl live)) = inr (inl live)
  Kept-HasReason l ip e soon (inr (inr young)) = inr (inr (omega (arith, soon, young)))

  -- No silent client stays registered: behind every round of the pinner, whatever SYNs,
  -- connections and changes of network came before, a client in the registry is one of the
  -- configuration, or had a live connection at the last expiry, or was seen less than 31 minutes
  -- ago. Time does not run backwards.
  pub after_round-HasReason :
      (lan_clients : List LanClient) (clock : ℕ) (w : W) {l : Life W}
      (order : List (Bytes × Bytes) → List (Bytes × Bytes)) (now : ℕ) (live : Bytes → Bool)
      (state : State) (ip : Bytes) (e : ClientEntry)
      → Lives (begins lan_clients clock w) l
      → l.clock ≤ now
      → lookup ip (after_round order now live state l).pinning.clients ≡ some e
      → HasReason (after_round order now live state l) ip e
  after_round-HasReason lan_clients clock w {l} order now live state ip e lives later found =
      let h = Lives-IsKept lan_clients clock w lives in
      let (fresh, soon, _) =
        pinner_round-IsCurrent order now live l.live state l.last l.pinning h.fresh
          (omega (arith, h.past, later)) in
      Kept-HasReason (after_round order now live state l) ip e soon (fresh.kept ip e found)
