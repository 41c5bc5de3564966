-- ===== src/Net/Mac/RoundTrip.antt =====
-- Printed hardware addresses are read back, and what is read is a list of bytes.
use cisco_socks_server.Prelude.{
  ℕ, ◌+◌, ◌*◌, ◌/◌, ◌%◌, ◌≤◌, ◌<◌, true, ◌||◌, List, [], ◌∷◌, Option, none, some, Bytes, ◌==◌,
  length, All, ◌≡◌, refl, arith, ◌∙◌, Option-cases, if_elim, ltb, if◌then◌else◌, >>=-eq-some,
  le→ltb, keep_if-eq-some, inl, inr,
}
use cisco_socks_server.Net.Mac.{
  hex_digit, octet, octets, quads, is_mac_length, with_length, parse_mac, hex_char, print_mac,
}

-- Octets, in a number that `net.ParseMAC` admits.
abbrev pub IsMac : List ℕ → Type 0
IsMac hw = All (λ x. x < 256) hw × (is_mac_length (length hw) ≡ true)

hex_digit-hex_char : (n : ℕ) → n < 16 → hex_digit (hex_char n) ≡ some n
unfolding hex_digit hex_char
hex_digit-hex_char n h = ground arith

hex_digit-lt : (c : ℕ) {n : ℕ} → hex_digit c ≡ some n → n < 16
unfolding hex_digit
hex_digit-lt c h = ground arith

octet-print : (x : ℕ) → x < 256 → octet (hex_char (x / 16)) (hex_char (x % 16)) ≡ some x
unfolding octet
octet-print x h =
    ground
      (arith, hex_digit-hex_char (x / 16) (omega arith), hex_digit-hex_char (x % 16) (omega arith))

octet-lt : (a b : ℕ) {x : ℕ} → octet a b ≡ some x → x < 256
unfolding octet
octet-lt a b {x} h = elim (Option-cases (hex_digit a)) [
  | inl e ↦ ground (arith, e)
  | inr (u, e) ↦ elim (Option-cases (hex_digit b)) [
    | inl e' ↦ ground (arith, e, e')
    | inr (v, e') ↦ ground (arith, e, e', hex_digit-lt a e, hex_digit-lt b e')
  ]
]

pub octets-print_mac :
    (x : ℕ) (hw : List ℕ)
    → All (λ x. x < 256) (x ∷ hw)
    → octets b':' (print_mac (x ∷ hw)) ≡ some (x ∷ hw)
unfolding octets print_mac
octets-print_mac x [] h = ground (arith, octet-print x h.0)
octets-print_mac x (y ∷ hw) h = ground (arith, octet-print x h.0, octets-print_mac y hw h.1)

length-print_mac : (x : ℕ) (hw : List ℕ) → length (print_mac (x ∷ hw)) + 1 ≡ 3 * length (x ∷ hw)
unfolding print_mac
length-print_mac x [] = refl
length-print_mac x (y ∷ hw) = omega (arith, length-print_mac y hw)

parse_mac_colon :
    (a b d e : ℕ) (s : Bytes)
    → 14 ≤ length (a ∷ b ∷ b':' ∷ d ∷ e ∷ s)
    → parse_mac (a ∷ b ∷ b':' ∷ d ∷ e ∷ s) ≡ with_length (octets b':' (a ∷ b ∷ b':' ∷ d ∷ e ∷ s))
unfolding parse_mac
parse_mac_colon a b d e s h = rw (le→ltb _ _ h)

mac_length_lem : (hw : List ℕ) → is_mac_length (length hw) ≡ true → 6 ≤ length hw
mac_length_lem hw h = ground arith

two_octets :
    (x y : ℕ) (hw : List ℕ)
    → 14 ≤ length (print_mac (x ∷ y ∷ hw))
    → parse_mac (print_mac (x ∷ y ∷ hw)) ≡ with_length (octets b':' (print_mac (x ∷ y ∷ hw)))
unfolding print_mac
two_octets x y [] h = parse_mac_colon _ _ _ _ _ h
two_octets x y (z ∷ hw) h = parse_mac_colon _ _ _ _ _ h

-- A printed hardware address is read back.
pub parse_mac-print_mac : (hw : List ℕ) → IsMac hw → parse_mac (print_mac hw) ≡ some hw
parse_mac-print_mac [] h = cc
parse_mac-print_mac (x ∷ []) h = cc
parse_mac-print_mac (x ∷ y ∷ hw) h =
    two_octets x y hw (omega (arith, length-print_mac x (y ∷ hw), mac_length_lem (x ∷ y ∷ hw) h.1))
    ∙ (rw (octets-print_mac x (y ∷ hw) h.0, h.1))

octets-lt : (sep : ℕ) (s : Bytes) {hw : List ℕ} → octets sep s ≡ some hw → All (λ x. x < 256) hw
unfolding octets
octets-lt sep [] h = cc
octets-lt sep (a ∷ []) h = cc
octets-lt sep (a ∷ b ∷ []) h =
    let (x, ex, h') = >>=-eq-some (octet a b) _ h in ground (arith, octet-lt a b {x = x} ex)
octets-lt sep (a ∷ b ∷ c ∷ s) h =
    let (x, ex, h') = >>=-eq-some (octet a b) _ h in
    let (xs, exs, h'') = >>=-eq-some (octets sep s) _ h' in
    ground (arith, octet-lt a b {x = x} ex, octets-lt sep s {hw = xs} exs)

quads-lt : (s : Bytes) {hw : List ℕ} → quads s ≡ some hw → All (λ x. x < 256) hw
unfolding quads
quads-lt [] h = cc
quads-lt (a ∷ []) h = cc
quads-lt (a ∷ b ∷ []) h = cc
quads-lt (a ∷ b ∷ c ∷ []) h = cc
quads-lt (a ∷ b ∷ c ∷ d ∷ []) h =
    let (x, ex, h') = >>=-eq-some (octet a b) _ h in
    let (y, ey, h'') = >>=-eq-some (octet c d) _ h' in
    ground (arith, octet-lt a b {x = x} ex, octet-lt c d {x = y} ey)
quads-lt (a ∷ b ∷ c ∷ d ∷ e ∷ s) h =
    let (x, ex, h') = >>=-eq-some (octet a b) _ h in
    let (y, ey, h'') = >>=-eq-some (octet c d) _ h' in
    let (xs, exs, h3) = >>=-eq-some (quads s) _ h'' in
    ground (arith, octet-lt a b {x = x} ex, octet-lt c d {x = y} ey, quads-lt s {hw = xs} exs)

with_length-IsMac :
    (o : Option (List ℕ)) {hw : List ℕ}
    → ((xs : List ℕ) → o ≡ some xs → All (λ x. x < 256) xs)
    → with_length o ≡ some hw
    → IsMac hw
with_length-IsMac none below h = cc
with_length-IsMac (some xs) {hw} below h =
    let (ok, e) = keep_if-eq-some (is_mac_length (length xs)) xs h in rw e (below xs refl, ok)

-- What is read is a list of bytes, 6, 8 or 20 of them.
pub parse_mac-IsMac : (s : Bytes) {hw : List ℕ} → parse_mac s ≡ some hw → IsMac hw
unfolding parse_mac
parse_mac-IsMac [] h = cc
parse_mac-IsMac (a ∷ []) h = cc
parse_mac-IsMac (a ∷ b ∷ []) h = cc
parse_mac-IsMac (a ∷ b ∷ c ∷ []) h = cc
parse_mac-IsMac (a ∷ b ∷ c ∷ d ∷ []) h = cc
parse_mac-IsMac (a ∷ b ∷ c ∷ d ∷ e ∷ s) {hw} h =
    if_elim Good (ltb (length text) 14) none other (λ _ k. cc)
      (λ _.
        if_elim Good ((c == b':') || (c == b'-')) (with_length (octets c text)) dotted
          (λ _. with_length-IsMac (octets c text) λ xs k. octets-lt c text k)
          λ _.
            if_elim Good (e == b'.') (with_length (quads text)) none
              (λ _. with_length-IsMac (quads text) λ xs k. quads-lt text k) (λ _ k. cc))
      h
  where
    Good : Option (List ℕ) → Type 0
    Good o = o ≡ some hw → IsMac hw

    text : Bytes
    text = a ∷ b ∷ c ∷ d ∷ e ∷ s

    dotted : Option (List ℕ)
    dotted = if e == b'.' then with_length (quads text) else none

    other : Option (List ℕ)
    other = if (c == b':') || (c == b'-') then with_length (octets c text) else dotted
