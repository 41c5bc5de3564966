-- ===== src/Tui/Uptime.antt =====
-- internal/utils/tui/uptime.go: the text of the uptime panel, for the time since its start in
-- nanoseconds. The methods of `time.Duration` go through floating-point numbers, and are parameters.
pub mod Clock
use cisco_socks_server.Prelude.{
  ℕ, zero, suc, ◌+◌, ◌-◌, ◌*◌, ◌/◌, ◌%◌, List, [], ◌∷◌, ◌++◌, Bytes, bytes, ltb, ◌==◌,
  if◌then◌else◌,
}
use cisco_socks_server.Tui.Layout.{sidebar_width}

-- `int(d.Hours())`, `int(d.Minutes())`, `int(d.Seconds())`
pub record DurationOps : Type 0 where
  pub hours : ℕ → ℕ
  pub minutes : ℕ → ℕ
  pub seconds : ℕ → ℕ

-- The decimal digits of a number that has at most as many.
unfoldable pub digits : ℕ → ℕ → Bytes
digits zero n = []
digits (suc most) n =
    let rest = digits most (n / 10) in
    if ltb n 10 then (b'0' + n) ∷ [] else rest ++ ((b'0' + n % 10) ∷ [])

-- `%02d`, for an `int` of 64 bits, which has at most 19 digits.
unfoldable pub pad_zero : ℕ → Bytes
pad_zero n = if ltb n 10 then b'0' ∷ digits 19 n else digits 19 n

-- `utf8.RuneCountInString`, of a valid text: the bytes that do not continue a character.
unfoldable pub rune_count : Bytes → ℕ
rune_count [] = 0
rune_count (c ∷ s) = let rest = rune_count s in if c / 64 == 2 then rest else suc rest

unfoldable pub spaces : ℕ → Bytes
spaces zero = []
spaces (suc n) = b' ' ∷ spaces n

-- `%*s`
unfoldable pub pad_left : ℕ → Bytes → Bytes
pad_left width s = spaces (width - rune_count s) ++ s

-- The line, and what one tick prints.
unfoldable pub uptime_line : ℕ → ℕ → ℕ → Bytes
uptime_line h m s = bytes "⏱ " ++ (pad_zero h ++ (b':' ∷ (pad_zero m ++ (b':' ∷ pad_zero s))))

unfoldable pub uptime_text : DurationOps → ℕ → Bytes
uptime_text ops d =
    pad_left (sidebar_width - 3)
      (uptime_line (ops.hours d) (ops.minutes d % 60) (ops.seconds d % 60))
