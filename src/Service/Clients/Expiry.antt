-- ===== src/Service/Clients/Expiry.antt =====
-- What `expire` drops and reports, and what `resetNetwork` leaves.
use cisco_socks_server.Prelude.{
  ℕ, List, insert, lookup-insert, insert-Distinct, ◌≤◌, Bool, true, false, not, [], ◌∷◌, Option,
  none, some, Bytes, if◌then◌else◌, ◌>>=◌, ◌≡◌, refl, inl, inr, ◌↔◌, arith, str_eq_iff, keep_if,
  listed, lookup, retain, map_values, Distinct, lookup-retain, lookup-map_values, Option-cases,
}
use cisco_socks_server.Service.State.{LanClient, time_sub}
use cisco_socks_server.Service.Clients.{
  add_static, static_entry, new_client_registry, ClientEntry, Registry, stays, expired_ips, expire,
  reset_network, forget_mac,
}

module _ (now ttl : ℕ) (live : Bytes → Bool) where
  abbrev gone : Bytes → Option ClientEntry → Bool
  gone k none = false
  gone k (some e) = not (stays now ttl live k e)

  listed-expired_ips :
      (k : Bytes) (r : Registry)
      → Distinct r
      → listed (expired_ips now ttl live r) k ≡ gone k (lookup k r)
  unfolding expired_ips lookup listed
  listed-expired_ips k [] d = refl
  listed-expired_ips k ((j, e) ∷ r) d =
      ground (arith, str_eq_iff j k, d.0, listed-expired_ips k r d.1)

  -- `expire` reports exactly the discovered clients with no live connection that were last seen
  -- at least the time to live ago.
  pub expire_reports_iff :
      (r : Registry) (k : Bytes)
      → Distinct r
      → (listed (expire r now ttl live).1 k ≡ true) ↔ (
          (e : ClientEntry) × (lookup k r ≡ some e)
          × (e.static ≡ false)
          × (live k ≡ false)
          × (ttl ≤ time_sub now e.last_seen))
  unfolding expire stays
  expire_reports_iff r k d = (
    λ h. elim (Option-cases (lookup k r)) [
      | inl e ↦ absurd (ground (arith, e, listed-expired_ips k r d))
      | inr (c, e) ↦ (
        c,
        e,
        ground (arith, e, listed-expired_ips k r d),
        ground (arith, e, listed-expired_ips k r d),
        ground (arith, e, listed-expired_ips k r d),
      )
    ],
    λ (e, found, st, idle, old). ground (arith, listed-expired_ips k r d, found, st, idle, old),
  )

  -- What it reports is gone, and every other client is as it was.
  pub expire_keeps :
      (r : Registry) (k : Bytes)
      → Distinct r
      → lookup k (expire r now ttl live).0
        ≡ (if listed (expire r now ttl live).1 k then none else lookup k r)
  unfolding expire
  expire_keeps r k d =
      ground (arith, listed-expired_ips k r d, lookup-retain (stays now ttl live) k r d)

-- After a change of network the registry holds the clients of the configuration, each with no
-- address, and no other.
pub reset_network_lem :
    (r : Registry) (k : Bytes) (e : ClientEntry)
    → Distinct r
    → (lookup k (reset_network r) ≡ some e)
      ↔ ((old : ClientEntry) × (lookup k r ≡ some old) × (old.static ≡ true) × (e ≡ forget_mac old))
unfolding reset_network
reset_network_lem r k e d = (
  λ h. elim (Option-cases (lookup k r)) [
    | inl miss ↦ absurd (ground (arith, kept, values, miss))
    | inr (c, found) ↦
        (c, found, ground (arith, kept, values, found), ground (arith, kept, values, found))
  ],
  λ (old, found, st, same). ground (arith, kept, values, found, st, same),
)
  where
    kept : lookup k (retain (λ ip c. c.static) r) ≡ (lookup k r >>= λ c. keep_if c.static c)
    kept = lookup-retain (λ ip c. c.static) k r d

    values :
        lookup k (map_values forget_mac (retain (λ ip c. c.static) r))
        ≡ (lookup k (retain (λ ip c. c.static) r) >>= λ c. some (forget_mac c))
    values = lookup-map_values forget_mac k (retain (λ ip c. c.static) r)

add_static_static :
    (lcs : List LanClient) (r : Registry)
    → Distinct r
    → ((ip : Bytes) (e : ClientEntry) → lookup ip r ≡ some e → e.static ≡ true)
    → Distinct (add_static lcs r)
      × ((ip : Bytes) (e : ClientEntry) → lookup ip (add_static lcs r) ≡ some e → e.static ≡ true)
unfolding add_static
add_static_static [] r d h = (d, h)
add_static_static (lc ∷ lcs) r d h =
    add_static_static lcs (insert lc.ip (static_entry lc) r)
      (insert-Distinct lc.ip (static_entry lc) r d)
      (λ ip e found. ground (arith, lookup-insert lc.ip ip (static_entry lc) r, h ip e, found))

-- The registry begins with one entry for each client of the configuration, and no other.
pub new_client_registry_static :
    (lan_clients : List LanClient)
    → Distinct (new_client_registry lan_clients)
      × ((ip : Bytes) (e : ClientEntry)
          → lookup ip (new_client_registry lan_clients) ≡ some e
          → e.static ≡ true)
unfolding new_client_registry lookup
new_client_registry_static lan_clients = add_static_static lan_clients [] tt (λ ip e found. cc)
