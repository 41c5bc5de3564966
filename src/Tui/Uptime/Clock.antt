-- ===== src/Tui/Uptime/Clock.antt =====
-- What the uptime panel shows.
use cisco_socks_server.Prelude.{
  ℕ, zero, suc, ◌+◌, ◌-◌, ◌*◌, ◌/◌, ◌%◌, ◌^◌, ◌<◌, ◌≡◌, true, false, [], ◌∷◌, ◌++◌, Bytes, bytes,
  ltb, refl, ap, ◌∙◌, arith, Bool-cases, inl, inr,
}
use cisco_socks_server.Service.State.{second, minute}
use cisco_socks_server.Log.{two_digits}
use cisco_socks_server.Tui.Uptime.{
  DurationOps, digits, pad_zero, rune_count, spaces, pad_left, uptime_line, uptime_text,
}

-- The number that digits stand for.
unfoldable value : ℕ → Bytes → ℕ
value acc [] = acc
value acc (c ∷ s) = value (acc * 10 + (c - b'0')) s

value-snoc : (acc c : ℕ) (s : Bytes) → value acc (s ++ (c ∷ [])) ≡ value acc s * 10 + (c - b'0')
unfolding value
value-snoc acc c [] = refl
value-snoc acc c (d ∷ s) = value-snoc (acc * 10 + (d - b'0')) c s

fewer : (most n : ℕ) → n < 10 ^ suc most → n / 10 < 10 ^ most
fewer most n h = omega arith

-- Digits enough give the number.
value-digits : (most n : ℕ) → n < 10 ^ most → value 0 (digits most n) ≡ n
unfolding value digits
value-digits zero n h = omega arith
value-digits (suc most) n h =
    let shorter = value-digits most (n / 10) (fewer most n h) in
    elim (Bool-cases (ltb n 10)) [
      | inl one ↦ rw one (omega arith)
      | inr more ↦ rw more (value-snoc 0 (b'0' + n % 10) (digits most (n / 10)) ∙ omega arith)
    ]

digits-one : (most n : ℕ) → ltb n 10 ≡ true → digits (suc most) n ≡ (b'0' + n) ∷ []
unfolding digits
digits-one most n one = rw one refl

digits-two : (most n : ℕ) → ltb n 10 ≡ false → n < 100 → digits (suc (suc most)) n ≡ two_digits n
unfolding digits
digits-two most n more h =
    rw more
      (ap (λ (s : Bytes). s ++ ((b'0' + n % 10) ∷ [])) (digits-one most (n / 10) (ground arith)))

zero_first : (n : ℕ) → ltb n 10 ≡ true → b'0' ∷ (b'0' + n) ∷ [] ≡ two_digits n
zero_first n one = ground arith

pad_zero_lem : (n : ℕ) → n < 100 → pad_zero n ≡ two_digits n
unfolding pad_zero
pad_zero_lem n h = elim (Bool-cases (ltb n 10)) [
  | inl one ↦ rw one (ap (λ (s : Bytes). b'0' ∷ s) (digits-one 18 n one) ∙ zero_first n one)
  | inr more ↦ rw more (digits-two 17 n more h)
]

rune_count-two_digits :
    (n : ℕ) (s : Bytes) → n < 100 → rune_count (two_digits n ++ s) ≡ 2 + rune_count s
unfolding rune_count
rune_count-two_digits n s h = ground arith

-- What the methods give, where their floating-point numbers are exact enough.
pub record IsTruncated (ops : DurationOps) (d : ℕ) : Type 0 where
  pub hours : ops.hours d ≡ d / (60 * minute)
  pub minutes : ops.minutes d ≡ d / minute
  pub seconds : ops.seconds d ≡ d / second

-- Three numbers of two digits.
abbrev pub clock : ℕ → ℕ → ℕ → Bytes
clock h m s =
    bytes "⏱ " ++ (two_digits h ++ (b':' ∷ (two_digits m ++ (b':' ∷ (two_digits s ++ [])))))

uptime_line-clock : (h m s : ℕ) → h < 100 → m < 100 → s < 100 → uptime_line h m s ≡ clock h m s
unfolding uptime_line
uptime_line-clock h m s small_h small_m small_s =
    rw (pad_zero_lem h small_h, pad_zero_lem m small_m, pad_zero_lem s small_s) refl

rune_count-clock : (h m s : ℕ) → h < 100 → m < 100 → s < 100 → rune_count (clock h m s) ≡ 10
unfolding rune_count
rune_count-clock h m s small_h small_m small_s = ground arith

rune_count-spaces : (n : ℕ) (s : Bytes) → rune_count (spaces n ++ s) ≡ n + rune_count s
unfolding rune_count spaces
rune_count-spaces zero s = omega arith
rune_count-spaces (suc n) s = let rest = rune_count-spaces n s in omega arith

-- In the first hundred hours, where the methods of the duration are exact, the panel shows the
-- whole seconds since its start as hours, minutes and seconds of two digits each, at the right end
-- of its 19 columns.
pub uptime_text_lem :
    (ops : DurationOps) (d : ℕ)
    → IsTruncated ops d
    → d < 100 * (60 * minute)
    → let secs = d / second in
      (uptime_text ops d ≡ spaces 9 ++ clock (secs / 3_600) (secs / 60 % 60) (secs % 60))
      × (rune_count (uptime_text ops d) ≡ 19)
unfolding uptime_text pad_left
uptime_text_lem ops d exact early =
    let secs = d / second in
    let hours : ops.hours d ≡ secs / 3_600 = exact.hours ∙ omega arith in
    let minutes : ops.minutes d % 60 ≡ secs / 60 % 60 =
      ap (λ k. k % 60) (exact.minutes ∙ omega arith) in
    let small : secs / 3_600 < 100 = omega arith in
    let line : uptime_line (ops.hours d) (ops.minutes d % 60) (ops.seconds d % 60)
        ≡ clock (secs / 3_600) (secs / 60 % 60) (secs % 60) =
      rw (hours, minutes, exact.seconds)
        (uptime_line-clock (secs / 3_600) (secs / 60 % 60) (secs % 60) small (omega arith)
          (omega arith)) in
    let ten =
      rune_count-clock (secs / 3_600) (secs / 60 % 60) (secs % 60) small (omega arith)
        (omega arith) in
    (rw (line, ten) refl, rw (line, ten) (rune_count-spaces 9 _ ∙ ap (λ n. 9 + n) ten))
