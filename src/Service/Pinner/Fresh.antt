-- ===== src/Service/Pinner/Fresh.antt =====
-- How the calls on the registry keep the silent clients few.
use cisco_socks_server.Prelude.{
  ℕ, ◌<◌, ◌≤◌, Bool, true, List, [], ◌∷◌, Option, some, Bytes, str_eq, str_eq_iff, ◌≡◌, ◌⊎◌, inl,
  inr, arith, lookup, insert, retain, Distinct, lookup-insert, lookup-retain, lookup-map_values,
  insert-Distinct, retain-Distinct, map_values-Distinct, Option-cases, Bool-cases, if_elim,
}
use cisco_socks_server.Net.Addr.{V6Text}
use cisco_socks_server.Route.Arp.{ArpEntry, PinAction, pin_none, pin_adopt, pin_repin}
use cisco_socks_server.Service.State.{State, LanClient, time_sub}
use cisco_socks_server.Service.Clients.{
  ClientEntry, Registry, new_client_registry, or_new, touch, seen, set_mac, stays, expire,
  forget_mac, reset_network, discovered_client_ttl,
}
use cisco_socks_server.Service.Clients.Expiry.{new_client_registry_static}
use cisco_socks_server.Service.Pinner.{
  PinOps, Pinning, pin_now, act, look_up, skipped, pin_client, pin_all,
}

-- The client is of the configuration, or had a live connection at the last expiry, or was seen
-- within the time to live before it.
abbrev pub Kept : ℕ → (Bytes → Bool) → Bytes → ClientEntry → Type 0
Kept last live ip e =
    (e.static ≡ true) ⊎ (live ip ≡ true) ⊎ (time_sub last e.last_seen < discovered_client_ttl)

pub record IsFresh (last : ℕ) (live : Bytes → Bool) (r : Registry) : Type 0 where
  pub distinct : Distinct r
  pub kept : (ip : Bytes) (e : ClientEntry) → lookup ip r ≡ some e → Kept last live ip e

-- The calls keep it.
module _ (last : ℕ) (live : Bytes → Bool) where
  pub expire-IsFresh :
      (r : Registry) → Distinct r → IsFresh last live (expire r last discovered_client_ttl live).0
  unfolding expire stays
  expire-IsFresh r d = record {
    distinct = retain-Distinct (stays last discovered_client_ttl live) r d;
    kept =
        λ ip e h. ground (arith, lookup-retain (stays last discovered_client_ttl live) ip r d, h);
  }

  pub seen-IsFresh :
      (r : Registry) (ip mac : Bytes) (now : ℕ)
      → last ≤ now
      → IsFresh last live r
      → IsFresh last live (seen r ip mac now).0
  unfolding seen touch time_sub
  seen-IsFresh r ip mac now later fresh = record {
    distinct = insert-Distinct ip _ r fresh.distinct;
    kept = λ j e h. ground (
      arith,
      str_eq_iff ip j,
      lookup-insert ip j (touch mac now (or_new (lookup ip r))) r,
      fresh.kept j e,
      h,
    );
  }

  put-IsFresh :
      (r : Registry) (ip mac : Bytes) (c : ClientEntry)
      → lookup ip r ≡ some c
      → IsFresh last live r
      → IsFresh last live (insert ip (record c { mac = mac }) r)
  put-IsFresh r ip mac c known fresh = record {
    distinct = insert-Distinct ip _ r fresh.distinct;
    kept = λ j e h. elim (Bool-cases (str_eq ip j)) [
      | inl same ↦ ground (
        arith,
        str_eq_iff ip j,
        lookup-insert ip j (record c { mac = mac }) r,
        fresh.kept ip c known,
        h,
      )
      | inr other ↦
          fresh.kept j e (ground (arith, lookup-insert ip j (record c { mac = mac }) r, h))
    ];
  }

  set_mac-IsFresh :
      (r : Registry) (ip mac : Bytes) → IsFresh last live r → IsFresh last live (set_mac r ip mac)
  unfolding set_mac
  set_mac-IsFresh r ip mac fresh = elim (Option-cases (lookup ip r)) [
    | inl e ↦ rw (e, set_mac) fresh
    | inr (c, e) ↦ rw (e, set_mac) (put-IsFresh r ip mac c e fresh)
  ]

  pub reset_network-IsFresh :
      (r : Registry) → IsFresh last live r → IsFresh last live (reset_network r)
  unfolding reset_network
  reset_network-IsFresh r fresh = record {
    distinct = map_values-Distinct forget_mac _ (retain-Distinct _ r fresh.distinct);
    kept = λ ip e h. ground (
      arith,
      lookup-map_values forget_mac ip (retain (λ ip c. c.static) r),
      lookup-retain (λ ip c. c.static) ip r fresh.distinct,
      h,
    );
  }

  module _ {W : Type 0} (ops : PinOps W) ⦃t : V6Text⦄ (state : State) where
    act-IsFresh :
        (ip mac : Bytes) (found : Option ArpEntry) (a : PinAction) (s : Pinning W)
        → IsFresh last live s.clients
        → IsFresh last live (act ops state ip mac found a s).clients
    unfolding act pin_now
    act-IsFresh ip mac found pin_none s h = h
    act-IsFresh ip mac found pin_adopt s h = set_mac-IsFresh s.clients ip _ h
    act-IsFresh ip mac found pin_repin s h = h

    pub pin_all-IsFresh :
        (cs : List (Bytes × Bytes)) (s : Pinning W)
        → IsFresh last live s.clients
        → IsFresh last live (pin_all ops state cs s).clients
    unfolding pin_all pin_client look_up
    pin_all-IsFresh [] s h = h
    pin_all-IsFresh ((ip, mac) ∷ cs) s h = pin_all-IsFresh cs (pin_client ops state (ip, mac) s) (
        if_elim (λ (p : Pinning W). IsFresh last live p.clients) (skipped state ip) s _ (λ _. h)
          λ _. act-IsFresh ip mac _ _ (look_up ops ip s) h)

pub new_client_registry-IsFresh :
    (lan_clients : List LanClient) (last : ℕ) (live : Bytes → Bool)
    → IsFresh last live (new_client_registry lan_clients)
new_client_registry-IsFresh lan_clients last live =
    let (distinct, static) = new_client_registry_static lan_clients in
    record { distinct = distinct; kept = λ ip e found. inl (static ip e found) }
