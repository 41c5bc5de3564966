-- ===== src/Net/Addr/Text.antt =====
-- IPv4 addresses and their text determine each other, so that the program may compare texts.
use cisco_socks_server.Prelude.{
  ℕ, ◌+◌, ◌-◌, ◌*◌, ◌^◌, ◌<◌, Bool, true, false, List, [], ◌∷◌, ◌++◌, some, Bytes, All, ◌≡◌, ◌≢◌,
  refl, ap, ◌∙◌, sym, ◌>>=◌, ◌↔◌, arith, >>=-eq-some,
}
use cisco_socks_server.Strings.{join, split, Lacks, split-join, join-split}
use cisco_socks_server.Net.Addr.{
  octet, print_decimal, print_v4, read_field, read_fields, read_v4, v4, V6Text, parse_from,
  parse_addr,
}

read_field-print : (x : ℕ) → x < 256 → read_field 0 false (print_decimal x) ≡ some x
unfolding read_field print_decimal
read_field-print x h = ground arith

print_decimal-Lacks : (x : ℕ) → x < 256 → Lacks b'.' (print_decimal x)
unfolding print_decimal
print_decimal-Lacks x h = ground arith

read_fields_lem :
    (p q r s : Bytes) (a b c d : ℕ)
    → read_field 0 false p ≡ some a
    → read_field 0 false q ≡ some b
    → read_field 0 false r ≡ some c
    → read_field 0 false s ≡ some d
    → read_fields (p ∷ q ∷ r ∷ s ∷ []) ≡ some (a * 2 ^ 24 + b * 2 ^ 16 + c * 2 ^ 8 + d)
unfolding read_fields
read_fields_lem p q r s a b c d hp hq hr hs = rw (hp, hq, hr, hs)

-- A printed IPv4 address is read back.
pub read_v4-print_v4 : (a : ℕ) → a < 2 ^ 32 → read_v4 (print_v4 a) ≡ some a
unfolding read_v4 print_v4
read_v4-print_v4 a h =
    rw
      (split-join (field 0) (field 1 ∷ field 2 ∷ field 3 ∷ []) b'.'
        (lacks 0, (lacks 1, (lacks 2, (lacks 3, tt)))))
      (read_fields_lem (field 0) (field 1) (field 2) (field 3) _ _ _ _ (back 0) (back 1) (back 2)
          (back 3)
        ∙ ap some (omega arith))
  where
    field : ℕ → Bytes
    field i = print_decimal (octet i a)

    lacks : (i : ℕ) → Lacks b'.' (field i)
    lacks i = print_decimal-Lacks (octet i a) (omega arith)

    back : (i : ℕ) → read_field 0 false (field i) ≡ some (octet i a)
    back i = read_field-print (octet i a) (omega arith)

read_field-lt :
    (s : Bytes) (v : ℕ) (b : Bool) {x : ℕ} → v < 256 → read_field v b s ≡ some x → x < 256
unfolding read_field
read_field-lt [] v b h e = ground arith
read_field-lt (c ∷ s) v b {x} h e =
    ground (arith, read_field-lt s (v * 10 + (c - b'0')) true {x = x})

-- Only the canonical decimal text of an octet is read as it.
print_decimal-read : (s : Bytes) {x : ℕ} → read_field 0 false s ≡ some x → print_decimal x ≡ s
unfolding read_field print_decimal
print_decimal-read [] h = cc
print_decimal-read (a ∷ []) h = ground arith
print_decimal-read (a ∷ b ∷ []) h = ground arith
print_decimal-read (a ∷ b ∷ c ∷ []) h = ground arith
print_decimal-read (a ∷ b ∷ c ∷ d ∷ s) h = ground arith

print_fields : (ps : List Bytes) {a : ℕ} → read_fields ps ≡ some a → print_v4 a ≡ join ps b'.'
unfolding read_fields print_v4
print_fields [] h = cc
print_fields (p ∷ []) h = cc
print_fields (p ∷ q ∷ []) h = cc
print_fields (p ∷ q ∷ r ∷ []) h = cc
print_fields (p ∷ q ∷ r ∷ s ∷ []) {a} h =
    let (w, ew, hw) = >>=-eq-some (read_field 0 false p) _ h in
    let (x, ex, hx) = >>=-eq-some (read_field 0 false q) _ hw in
    let (y, ey, hy) = >>=-eq-some (read_field 0 false r) _ hx in
    let (z, ez, hz) = >>=-eq-some (read_field 0 false s) _ hy in
    let value : a ≡ w * 2 ^ 24 + x * 2 ^ 16 + y * 2 ^ 8 + z = ground (arith, hz) in
    let below : (w < 256) × (x < 256) × (y < 256) × (z < 256) = (
      read_field-lt p 0 false (omega arith) ew,
      read_field-lt q 0 false (omega arith) ex,
      read_field-lt r 0 false (omega arith) ey,
      read_field-lt s 0 false (omega arith) ez,
    ) in
    let e0 : octet 0 a ≡ w = omega arith in
    let e1 : octet 1 a ≡ x = omega arith in
    let e2 : octet 2 a ≡ y = omega arith in
    let e3 : octet 3 a ≡ z = omega arith in
    rw (
      e0,
      e1,
      e2,
      e3,
      print_decimal-read p ew,
      print_decimal-read q ex,
      print_decimal-read r ey,
      print_decimal-read s ez,
    )
print_fields (p ∷ q ∷ r ∷ s ∷ t ∷ ps) h = cc

-- The text that is read as an address is the one that the address prints.
pub print_v4-read_v4 : (s : Bytes) {a : ℕ} → read_v4 s ≡ some a → print_v4 a ≡ s
unfolding read_v4 print_v4
print_v4-read_v4 s {a} h = print_fields (split s b'.') h ∙ join-split s b'.'

-- A byte that does not tell the form of an address.
abbrev Unmarked : ℕ → Type 0
Unmarked c = (c ≢ b'.') × (c ≢ b':') × (c ≢ b'%')

print_decimal-Unmarked : (x : ℕ) → x < 256 → All Unmarked (print_decimal x)
unfolding print_decimal
print_decimal-Unmarked x h = ground arith

module _ ⦃t : V6Text⦄ where
  parse_from-append :
      (text p s : Bytes)
      → All Unmarked p
      → parse_from text (p ++ (b'.' ∷ s)) ≡ (read_v4 text >>= λ a. some (v4 a))
  unfolding parse_from
  parse_from-append text [] s h = refl
  parse_from-append text (c ∷ p) s h = ground (arith, parse_from-append text p s h.1)

  pub parse_addr-print_v4 : (a : ℕ) → a < 2 ^ 32 → parse_addr (print_v4 a) ≡ some (v4 a)
  unfolding parse_addr
  parse_addr-print_v4 a h = dotted (print_v4 a) refl ∙ rw (read_v4-print_v4 a h)
    where
      rest : Bytes
      rest =
          join
            (print_decimal (octet 1 a) ∷ print_decimal (octet 2 a) ∷ print_decimal (octet 3 a) ∷ [])
            b'.'

      shape : print_v4 a ≡ print_decimal (octet 0 a) ++ (b'.' ∷ rest)
      shape = unfold print_v4 join in refl

      dotted :
          (s : Bytes)
          → s ≡ print_v4 a
          → parse_from s (print_v4 a) ≡ (read_v4 s >>= λ x. some (v4 x))
      dotted s e = rw shape (parse_from-append s _ rest (print_decimal-Unmarked _ (omega arith)))

  read_of_parse : (text s : Bytes) {a : ℕ} → parse_from text s ≡ some (v4 a) → read_v4 text ≡ some a
  unfolding parse_from
  read_of_parse text [] h = cc
  read_of_parse text (c ∷ s) {a} h = ground (arith, read_of_parse text s {a = a})

  -- Among the texts, only the one that an IPv4 address prints is read as it.
  pub parse_addr_v4_iff :
      (s : Bytes) (a : ℕ) → a < 2 ^ 32 → (parse_addr s ≡ some (v4 a)) ↔ (s ≡ print_v4 a)
  unfolding parse_addr
  parse_addr_v4_iff s a h =
      (λ e. sym (print_v4-read_v4 s (read_of_parse s s e)), λ e. rw e (parse_addr-print_v4 a h))
