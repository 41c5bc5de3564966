-- ===== src/Log.antt =====
-- internal/utils/log/logger.go: `colorHandler`, which renders a record of the log as one line. A
-- level is counted from `slog.LevelDebug`, the lowest one of the program.
pub mod Shown
pub mod Render
use cisco_socks_server.Prelude.{
  ℕ, ◌+◌, ◌*◌, ◌/◌, ◌%◌, Bool, true, false, ◌&&◌, List, [], ◌∷◌, ◌++◌, Option, none, some, Bytes,
  bytes, leb, if◌then◌else◌, is_empty, str_eq,
}
use cisco_socks_server.Net.Addr.{print_decimal}

abbrev pub escape : ℕ
escape = 27

-- `Colorize`
unfoldable pub colorize : Bytes → ℕ → Bytes
colorize s c =
    escape ∷ (bytes "[38;5;" ++ (print_decimal c ++ (b'm' ∷ (s ++ (escape ∷ bytes "[0m")))))

abbrev pub level_debug : ℕ
level_debug = 0

abbrev pub level_info : ℕ
level_info = 4

abbrev pub level_warn : ℕ
level_warn = 8

abbrev pub level_error : ℕ
level_error = 12

-- `formatLevel`
unfoldable pub format_level : ℕ → Bytes
format_level l =
    if leb level_error l
    then colorize (bytes "ERR") 9
    else if leb level_warn l
    then colorize (bytes "WRN") 11
    else if leb level_info l
    then colorize (bytes "INF") 10
    else colorize (bytes "DBG") 8

-- A key with the text of its value; `none` is the value nil.
pub record Attr : Type 0 where
  pub key : Bytes
  pub value : Option Bytes

abbrev pub value_text : Option Bytes → Bytes
value_text none = bytes "<nil>"
value_text (some s) = s

abbrev pub is_nil : Option Bytes → Bool
is_nil none = true
is_nil (some s) = false

-- `a.Equal(slog.Attr{})`
unfoldable pub is_zero : Attr → Bool
is_zero a = is_empty a.key && is_nil a.value

-- A record, with its time as the seconds of the day.
pub record LogRecord : Type 0 where
  pub time : ℕ
  pub level : ℕ
  pub message : Bytes
  pub attrs : List Attr

-- `colorHandler`; what it writes goes to `out`.
pub record ColorHandler : Type 0 where
  pub level : ℕ
  pub attrs : List Attr

-- `Enabled`
unfoldable pub enabled : ColorHandler → ℕ → Bool
enabled h l = leb h.level l

abbrev pub two_digits : ℕ → Bytes
two_digits n = (b'0' + n / 10) ∷ (b'0' + n % 10) ∷ []

-- `t.Format("15:04:05")`
abbrev pub format_time : ℕ → Bytes
format_time t =
    two_digits (t / 3_600 % 24)
    ++ (b':' ∷ (two_digits (t / 60 % 60) ++ (b':' ∷ two_digits (t % 60))))

-- The builder and the error of `Handle`, and `appendAttr` on them.
unfoldable pub append_attr : Attr → Bytes × Bytes → Bytes × Bytes
append_attr a (b, err_str) =
    if is_zero a
    then (b, err_str)
    else if str_eq a.key (bytes "error")
    then (b, value_text a.value)
    else (b ++ (b' ' ∷ colorize (a.key ++ (b'=' ∷ value_text a.value)) 8), err_str)

unfoldable pub append_attrs : List Attr → Bytes × Bytes → Bytes × Bytes
append_attrs [] p = p
append_attrs (a ∷ more) p = append_attrs more (append_attr a p)

-- What stands before the attributes.
unfoldable pub head_of : LogRecord → Bytes
head_of r = colorize (format_time r.time) 7 ++ (b' ' ∷ (format_level r.level ++ (b' ' ∷ r.message)))

-- `Handle`: the text of the one write.
unfoldable pub handle : ColorHandler → LogRecord → Bytes
handle h r =
    let (b, err_str) = append_attrs r.attrs (append_attrs h.attrs (head_of r, [])) in
    (if is_empty err_str then b else b ++ (b' ' ∷ colorize err_str 1)) ++ (b'\n' ∷ [])

-- `WithAttrs`
unfoldable pub with_attrs : ColorHandler → List Attr → ColorHandler
with_attrs h more = record h { attrs = h.attrs ++ more }

-- `WithGroup`
unfoldable pub with_group : ColorHandler → Bytes → ColorHandler
with_group h name = h
