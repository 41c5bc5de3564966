-- ===== src/Service/Clients/Refine.antt =====
-- The registry against its specification: a map from addresses to entries that knows no order.
use cisco_socks_server.Prelude.{
  ℕ, none, is_empty, false, ◌||◌, List, [], ◌∷◌, Option, some, Bytes, ltb, if◌then◌else◌, str_eq,
  str_eq_iff, keep_if, ◌>>=◌, ◌≡◌, refl, arith, lookup, retain, Distinct, lookup-insert,
  lookup-retain, lookup-map_values, insert-Distinct, retain-Distinct, map_values-Distinct,
  Option-cases, inl, inr, ◌∙◌, ap,
}
use mathlib.Core.Path.{fun_ext}
use cisco_socks_server.Service.State.{time_sub}
use cisco_socks_server.Service.Clients.{
  ClientEntry, Registry, or_new, touch, seen, set_mac, stays, expire, forget_mac, reset_network,
}
use cisco_socks_server.Service.Clients.Registry.{Call, sees, sets_mac, expires, resets, after, run}

abbrev pub Table : Type 0
Table = Bytes → Option ClientEntry

-- What a registry holds.
abbrev pub table : Registry → Table
table r k = lookup k r

-- The entry with another address.
abbrev with_mac : Bytes → ClientEntry → ClientEntry
with_mac mac e = record e { mac = mac }

-- The entry of a client that is heard of: an address that is not known does not replace one.
abbrev heard : Bytes → ℕ → Option ClientEntry → ClientEntry
heard mac now none = record { last_seen = now; mac = mac; static = false }
heard mac now (some e) = record {
  last_seen = now;
  mac = if is_empty mac then e.mac else mac;
  static = e.static;
}

-- Each call, as it changes what is held at one address.
pub spec_after : Table → Call → Table
spec_after m (sees ip mac now) k = if str_eq ip k then some (heard mac now (m k)) else m k
spec_after m (sets_mac ip mac) k = if str_eq ip k then (m k >>= λ e. some (with_mac mac e)) else m k
spec_after m (expires now ttl live) k =
    m k >>= λ e. keep_if (e.static || live k || ltb (time_sub now e.last_seen) ttl) e
spec_after m resets k = m k >>= λ e. keep_if e.static (with_mac [] e)

pub spec_run : Table → List Call → Table
spec_run m [] = m
spec_run m (c ∷ cs) = spec_run (spec_after m c) cs

touch_refines :
    (mac : Bytes) (now : ℕ) (o : Option ClientEntry) → touch mac now (or_new o) ≡ heard mac now o
unfolding touch
touch_refines [] now none = refl
touch_refines (c ∷ mac) now none = refl
touch_refines mac now (some e) = refl

set_mac-refines :
    (r : Registry) (ip mac k : Bytes)
    → lookup k (set_mac r ip mac) ≡ spec_after (table r) (sets_mac ip mac) k
unfolding set_mac spec_after
set_mac-refines r ip mac k = elim (Option-cases (lookup ip r)) [
  | inl e ↦ rw (e, set_mac) (ground (arith, e, str_eq_iff ip k))
  | inr (c, e) ↦
      rw (e, set_mac) (ground (arith, e, str_eq_iff ip k, lookup-insert ip k (with_mac mac c) r))
]

after-refines :
    (r : Registry) (c : Call) (k : Bytes)
    → Distinct r
    → lookup k (after r c) ≡ spec_after (table r) c k
unfolding spec_after seen expire stays reset_network
after-refines r (sees ip mac now) k d = ground (
  arith,
  str_eq_iff ip k,
  lookup-insert ip k (touch mac now (or_new (lookup ip r))) r,
  touch_refines mac now (lookup ip r),
)
after-refines r (sets_mac ip mac) k d = set_mac-refines r ip mac k
after-refines r (expires now ttl live) k d = lookup-retain (stays now ttl live) k r d
after-refines r resets k d = ground (
  arith,
  lookup-map_values forget_mac k (retain (λ ip e. e.static) r),
  lookup-retain (λ ip e. e.static) k r d,
)

after-Distinct : (r : Registry) (c : Call) → Distinct r → Distinct (after r c)
unfolding seen set_mac expire reset_network
after-Distinct r (sees ip mac now) d = insert-Distinct ip _ r d
after-Distinct r (sets_mac ip mac) d = elim (Option-cases (lookup ip r)) [
  | inl e ↦ rw (e, set_mac) d
  | inr (c, e) ↦ rw (e, set_mac) (insert-Distinct ip (with_mac mac c) r d)
]
after-Distinct r (expires now ttl live) d = retain-Distinct (stays now ttl live) r d
after-Distinct r resets d = map_values-Distinct forget_mac _ (retain-Distinct _ r d)

-- After any history of calls the registry holds at every address what the specification holds
-- there: the order and the representation of its entries never show.
pub run_refines :
    (r : Registry) (cs : List Call) (k : Bytes)
    → Distinct r
    → lookup k (run r cs) ≡ spec_run (table r) cs k
unfolding spec_run
run_refines r [] k d = refl
run_refines r (c ∷ cs) k d =
    run_refines (after r c) cs k (after-Distinct r c d)
    ∙ ap (λ m. spec_run m cs k) (fun_ext (λ j. after-refines r c j d))
