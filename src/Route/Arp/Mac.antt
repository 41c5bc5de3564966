-- ===== src/Route/Arp/Mac.antt =====
-- The canonical form of a hardware address.
use cisco_socks_server.Prelude.{
  ℕ, ◌/◌, ◌%◌, ◌<◌, true, List, [], ◌∷◌, some, Bytes, map, ltb, if◌then◌else◌, All, ◌≡◌, ◌≢◌, refl,
  arith, str_eq_iff, str_eq_refl, >>=-eq-some, Option-cases, inl, inr, ◌↔◌,
}
use cisco_socks_server.Strings.{split, join, split-join, Lacks}
use cisco_socks_server.Net.Mac.{parse_mac, print_mac, print_octet, hex_char}
use cisco_socks_server.Net.Mac.RoundTrip.{IsMac, parse_mac-print_mac, parse_mac-IsMac}
use cisco_socks_server.Route.Arp.{canonical_mac, restore_zero, same_mac}

-- An octet as macOS `arp` prints it, without a leading zero.
abbrev pub short_octet : ℕ → Bytes
short_octet x = if ltb x 16 then hex_char x ∷ [] else print_octet x

-- A hardware address as macOS `arp` prints it.
abbrev pub print_short : List ℕ → Bytes
print_short hw = join (map short_octet hw) b':'

hex_char-ne : (n : ℕ) → n < 16 → hex_char n ≢ b':'
unfolding hex_char
hex_char-ne n h = ground arith

print_octet-Lacks : (x : ℕ) → x < 256 → Lacks b':' (print_octet x)
unfolding print_octet
print_octet-Lacks x h =
    (hex_char-ne (x / 16) (omega arith), (hex_char-ne (x % 16) (omega arith), tt))

short_octet-Lacks : (x : ℕ) → x < 256 → Lacks b':' (short_octet x)
short_octet-Lacks x h = ground (arith, print_octet-Lacks x h, hex_char-ne x)

restore_zero-short_octet : (x : ℕ) → x < 256 → restore_zero (short_octet x) ≡ print_octet x
unfolding restore_zero print_octet hex_char
restore_zero-short_octet x h = ground arith

restore_zero-print_octet : (x : ℕ) → restore_zero (print_octet x) ≡ print_octet x
unfolding restore_zero print_octet
restore_zero-print_octet x = refl

-- A text whose parts become the octets of an address has that address's canonical form.
canonical_mac_parts :
    (f : ℕ → Bytes) (hw : List ℕ)
    → IsMac hw
    → ((x : ℕ) → x < 256 → Lacks b':' (f x) × (restore_zero (f x) ≡ print_octet x))
    → canonical_mac (join (map f hw) b':') ≡ some (print_mac hw)
unfolding canonical_mac
canonical_mac_parts f [] h good = cc
canonical_mac_parts f (x ∷ hw) h good = rw (
  split-join (f x) (map f hw) b':' (lacks (x ∷ hw) h.0),
  restored (x ∷ hw) h.0,
  printed (x ∷ hw),
  parse_mac-print_mac (x ∷ hw) h,
)
  where
    lacks : (ys : List ℕ) → All (λ y. y < 256) ys → All (Lacks b':') (map f ys)
    lacks [] b = tt
    lacks (y ∷ ys) b = ((good y b.0).0, lacks ys b.1)

    restored :
        (ys : List ℕ) → All (λ y. y < 256) ys → map restore_zero (map f ys) ≡ map print_octet ys
    restored [] b = refl
    restored (y ∷ ys) b = cc ((good y b.0).1, restored ys b.1)

    printed : (ys : List ℕ) → join (map print_octet ys) b':' ≡ print_mac ys
    printed ys = unfold print_mac in refl

-- An address that macOS prints without leading zeros has the canonical form of the address.
pub canonical_mac-print_short :
    (hw : List ℕ) → IsMac hw → canonical_mac (print_short hw) ≡ some (print_mac hw)
canonical_mac-print_short hw h =
    canonical_mac_parts short_octet hw h
      λ x below. (short_octet-Lacks x below, restore_zero-short_octet x below)

canonical_mac-print_mac :
    (hw : List ℕ) → IsMac hw → canonical_mac (print_mac hw) ≡ some (print_mac hw)
canonical_mac-print_mac hw h = printed hw (
    canonical_mac_parts print_octet hw h
      λ x below. (print_octet-Lacks x below, restore_zero-print_octet x))
  where
    printed :
        (ys : List ℕ)
        → canonical_mac (join (map print_octet ys) b':') ≡ some (print_mac ys)
        → canonical_mac (print_mac ys) ≡ some (print_mac ys)
    printed ys e = unfold print_mac in e

canonical_mac-inv :
    (s : Bytes) {m : Bytes}
    → canonical_mac s ≡ some m
    → (hw : List ℕ) × IsMac hw × (m ≡ print_mac hw)
unfolding canonical_mac
canonical_mac-inv s {m} h =
    let (hw, e, e') = >>=-eq-some (parse_mac (join (map restore_zero (split s b':')) b':')) _ h in
    (hw, parse_mac-IsMac _ e, ground arith)

-- The canonical form of a text is its own canonical form, and prints 6, 8 or 20 octets.
pub canonical_mac_idem :
    (s : Bytes) {m : Bytes}
    → canonical_mac s ≡ some m
    → (canonical_mac m ≡ some m) × ((hw : List ℕ) × IsMac hw × (m ≡ print_mac hw))
canonical_mac_idem s {m} h =
    let (hw, ok, e) = canonical_mac-inv s h in (rw e (canonical_mac-print_mac hw ok), (hw, ok, e))

-- Two texts are the same address exactly when they have one canonical form.
pub same_mac_iff :
    (a b : Bytes)
    → (same_mac a b ≡ true)
      ↔ ((m : Bytes) × (canonical_mac a ≡ some m) × (canonical_mac b ≡ some m))
unfolding same_mac
same_mac_iff a b = (
  λ h. elim (Option-cases (canonical_mac a)) [
    | inl e ↦ absurd (ground (arith, e))
    | inr (x, e) ↦ elim (Option-cases (canonical_mac b)) [
      | inl e' ↦ absurd (ground (arith, e, e'))
      | inr (y, e') ↦ (x, e, ground (arith, e, e', str_eq_iff x y))
    ]
  ],
  λ (m, e, e'). rw (e, e', str_eq_refl),
)
