-- ===== src/Service/Clients/Registry.antt =====
-- The registry's invariant, and what each operation does to a client and to the others.
use cisco_socks_server.Prelude.{
  ℕ, Bool, true, List, [], ◌∷◌, some, Bytes, ◌≡◌, refl, ◌⊎◌, inl, inr, arith, str_eq, str_eq_iff,
  All, Bool-cases, lookup, insert, retain, map_values, Distinct, lookup-insert, insert-Distinct,
  lookup-retain, retain-Distinct, lookup-map_values, map_values-Distinct, Option-cases,
}
use cisco_socks_server.Route.Arp.{canonical_mac}
use cisco_socks_server.Route.Arp.Mac.{canonical_mac_idem}
use cisco_socks_server.Service.State.{LanClient}
use cisco_socks_server.Service.Clients.{
  ClientEntry, Registry, static_entry, add_static, new_client_registry, or_new, touch, seen,
  set_mac, forget_mac, stays, expire, reset_network,
}

-- A hardware address that is not known, or in canonical form.
abbrev pub IsCanonical : Bytes → Type 0
IsCanonical m = (m ≡ []) ⊎ (canonical_mac m ≡ some m)

-- One entry for each client, with a usable address.
pub record IsValid (r : Registry) : Type 0 where
  pub distinct : Distinct r
  pub canonical : (ip : Bytes) (e : ClientEntry) → lookup ip r ≡ some e → IsCanonical e.mac

insert-IsValid :
    (r : Registry) (ip : Bytes) (e : ClientEntry)
    → IsCanonical e.mac
    → IsValid r
    → IsValid (insert ip e r)
insert-IsValid r ip e h v = record {
  distinct = insert-Distinct ip e r v.distinct;
  canonical = λ j f found. ground (arith, lookup-insert ip j e r, v.canonical j f);
}

retain-IsValid : (r : Registry) (p : Bytes → ClientEntry → Bool) → IsValid r → IsValid (retain p r)
retain-IsValid r p v = record {
  distinct = retain-Distinct p r v.distinct;
  canonical = λ ip e found. ground (arith, lookup-retain p ip r v.distinct, v.canonical ip e);
}

or_new-IsCanonical :
    (r : Registry) (ip : Bytes) → IsValid r → IsCanonical (or_new (lookup ip r)).mac
or_new-IsCanonical r ip v = ground (arith, v.canonical ip (or_new (lookup ip r)))

static_entry-IsCanonical : (lc : LanClient) → IsCanonical (static_entry lc).mac
static_entry-IsCanonical lc = elim (Option-cases (canonical_mac lc.mac)) [
  | inl e ↦ rw e (inl refl)
  | inr (m, e) ↦ rw e (inr (canonical_mac_idem lc.mac e).0)
]

add_static-IsValid : (lcs : List LanClient) (r : Registry) → IsValid r → IsValid (add_static lcs r)
unfolding add_static
add_static-IsValid [] r v = v
add_static-IsValid (lc ∷ lcs) r v =
    add_static-IsValid lcs _
      (insert-IsValid r lc.ip (static_entry lc) (static_entry-IsCanonical lc) v)

-- The registry that the configuration gives is well formed, whatever the configuration holds.
pub new_client_registry-IsValid : (lcs : List LanClient) → IsValid (new_client_registry lcs)
unfolding new_client_registry
new_client_registry-IsValid lcs =
    add_static-IsValid lcs []
      (record { distinct = tt; canonical = λ ip e h. absurd (unfold lookup in (cc)) })

touch-IsCanonical :
    (mac : Bytes) (now : ℕ) (e : ClientEntry)
    → IsCanonical mac
    → IsCanonical e.mac
    → IsCanonical (touch mac now e).mac
unfolding touch
touch-IsCanonical [] now e h k = k
touch-IsCanonical (c ∷ s) now e h k = h

pub seen-IsValid :
    (r : Registry) (ip mac : Bytes) (now : ℕ)
    → IsCanonical mac
    → IsValid r
    → IsValid (seen r ip mac now).0
unfolding seen
seen-IsValid r ip mac now h v =
    insert-IsValid r ip _ (touch-IsCanonical mac now _ h (or_new-IsCanonical r ip v)) v

pub set_mac-IsValid :
    (r : Registry) (ip mac : Bytes) → IsCanonical mac → IsValid r → IsValid (set_mac r ip mac)
unfolding set_mac
set_mac-IsValid r ip mac h v = elim (Option-cases (lookup ip r)) [
  | inl e ↦ rw (e, set_mac) v
  | inr (c, e) ↦ rw (e, set_mac) (insert-IsValid r ip (record c { mac = mac }) h v)
]

map_values-IsValid : (r : Registry) → IsValid r → IsValid (map_values forget_mac r)
map_values-IsValid r v = record {
  distinct = map_values-Distinct forget_mac r v.distinct;
  canonical = λ ip e found. ground (arith, lookup-map_values forget_mac ip r);
}

-- The calls that change the registry.
pub data Call : Type 0 where
  sees : Bytes → Bytes → ℕ → Call
  sets_mac : Bytes → Bytes → Call
  expires : ℕ → ℕ → (Bytes → Bool) → Call
  resets : Call

abbrev pub after : Registry → Call → Registry
after r (sees ip mac now) = (seen r ip mac now).0
after r (sets_mac ip mac) = set_mac r ip mac
after r (expires now ttl live) = (expire r now ttl live).0
after r resets = reset_network r

-- The addresses that a call brings are canonical, as those that `arp` and `tcpdump` are read for.
abbrev pub IsSound : Call → Type 0
IsSound (sees ip mac now) = IsCanonical mac
IsSound (sets_mac ip mac) = IsCanonical mac
IsSound _ = Unit

-- Every call keeps one entry for each client, with an address that is canonical or not known.
pub after-IsValid : (r : Registry) (c : Call) → IsSound c → IsValid r → IsValid (after r c)
after-IsValid r (sees ip mac now) h v = seen-IsValid r ip mac now h v
after-IsValid r (sets_mac ip mac) h v = set_mac-IsValid r ip mac h v
after-IsValid r (expires now ttl live) h v =
    unfold expire in retain-IsValid r (stays now ttl live) v
after-IsValid r resets h v = unfold reset_network in map_values-IsValid _ (retain-IsValid r _ v)

-- A history of calls.
abbrev pub run : Registry → List Call → Registry
run r [] = r
run r (c ∷ cs) = run (after r c) cs

run-IsValid : (r : Registry) (cs : List Call) → All IsSound cs → IsValid r → IsValid (run r cs)
run-IsValid r [] h v = v
run-IsValid r (c ∷ cs) h v = run-IsValid (after r c) cs h.1 (after-IsValid r c h.0 v)

-- From any configuration and after any history of calls, the registry has one entry for each
-- client, and each address in it is canonical or not known.
pub history-IsValid :
    (lcs : List LanClient) (cs : List Call)
    → All IsSound cs
    → IsValid (run (new_client_registry lcs) cs)
history-IsValid lcs cs h = run-IsValid _ cs h (new_client_registry-IsValid lcs)

-- The client is registered as one of the configuration.
abbrev pub IsStatic : Bytes → Registry → Type 0
IsStatic ip r = (e : ClientEntry) × (lookup ip r ≡ some e) × (e.static ≡ true)

insert-IsStatic :
    (r : Registry) (ip j : Bytes) (e : ClientEntry)
    → ((f : ClientEntry) → lookup j r ≡ some f → f.static ≡ true → e.static ≡ true)
    → IsStatic ip r
    → IsStatic ip (insert j e r)
insert-IsStatic r ip j e keep (f, found, st) = elim (Bool-cases (str_eq j ip)) [
  | inl same ↦
      let j_is_ip : j ≡ ip = (str_eq_iff j ip).0 same in
      (e, ground (arith, lookup-insert j ip e r), keep f (rw j_is_ip found) st)
  | inr other ↦ (f, ground (arith, lookup-insert j ip e r), st)
]

seen-IsStatic :
    (r : Registry) (ip j mac : Bytes) (now : ℕ) → IsStatic ip r → IsStatic ip (seen r j mac now).0
unfolding seen touch
seen-IsStatic r ip j mac now h = insert-IsStatic r ip j _ (λ f found st. rw found st) h

set_mac-IsStatic : (r : Registry) (ip j mac : Bytes) → IsStatic ip r → IsStatic ip (set_mac r j mac)
unfolding set_mac
set_mac-IsStatic r ip j mac h = elim (Option-cases (lookup j r)) [
  | inl e ↦ rw (e, set_mac) h
  | inr (c, e) ↦
      rw (e, set_mac)
        (insert-IsStatic r ip j (record c { mac = mac }) (λ f found st. ground (arith, e, found)) h)
]

after-IsStatic :
    (r : Registry) (c : Call) (ip : Bytes) → IsValid r → IsStatic ip r → IsStatic ip (after r c)
after-IsStatic r (sees j mac now) ip v h = seen-IsStatic r ip j mac now h
after-IsStatic r (sets_mac j mac) ip v h = set_mac-IsStatic r ip j mac h
after-IsStatic r (expires now ttl live) ip v (e, found, st) =
    unfold expire stays in
    (e, ground (arith, found, st, lookup-retain (stays now ttl live) ip r v.distinct), st)
after-IsStatic r resets ip v (e, found, st) =
    unfold reset_network in
    (
      forget_mac e,
      ground (
        arith,
        found,
        st,
        lookup-retain (λ ip e. e.static) ip r v.distinct,
        lookup-map_values forget_mac ip (retain (λ ip e. e.static) r),
      ),
      st,
    )

-- No history of calls drops a client of the configuration.
pub history-IsStatic :
    (r : Registry) (cs : List Call) (ip : Bytes)
    → IsValid r
    → All IsSound cs
    → IsStatic ip r
    → IsStatic ip (run r cs)
history-IsStatic r [] ip v s h = h
history-IsStatic r (c ∷ cs) ip v s h =
    history-IsStatic (after r c) cs ip (after-IsValid r c s.0 v) s.1 (after-IsStatic r c ip v h)
