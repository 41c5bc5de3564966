-- ===== src/Net/Mac.antt =====
-- `net.ParseMAC` and `net.HardwareAddr.String`.
pub mod RoundTrip
use cisco_socks_server.Prelude.{
  ℕ, ◌+◌, ◌-◌, ◌*◌, ◌/◌, ◌%◌, Bool, true, false, ◌&&◌, ◌||◌, List, [], ◌∷◌, ◌++◌, Option, none,
  some, Bytes, bytes, ◌==◌, leb, ltb, if◌then◌else◌, ◌>>=◌, length, keep_if, get_elem?, map,
}
use cisco_socks_server.Strings.{join}

-- The value of a hexadecimal digit.
unfoldable pub hex_digit : ℕ → Option ℕ
hex_digit c =
    if leb b'0' c && leb c b'9'
    then some (c - b'0')
    else if leb b'a' c && leb c b'f'
    then some (c - b'a' + 10)
    else if leb b'A' c && leb c b'F'
    then some (c - b'A' + 10)
    else none

-- `xtoi2`: two digits.
unfoldable pub octet : ℕ → ℕ → Option ℕ
unfolding hex_digit
octet a b = do x ← hex_digit a; y ← hex_digit b; some (x * 16 + y)

-- `xx:xx:…:xx`, with one separator throughout.
unfoldable pub octets : ℕ → Bytes → Option (List ℕ)
unfolding octet
octets sep (a ∷ b ∷ []) = do x ← octet a b; some (x ∷ [])
octets sep (a ∷ b ∷ c ∷ s) = do
  x ← octet a b
  xs ← octets sep s
  if c == sep then some (x ∷ xs) else none
octets sep s = none

-- `xxxx.xxxx.…`
unfoldable pub quads : Bytes → Option (List ℕ)
unfolding octet
quads (a ∷ b ∷ c ∷ d ∷ []) = do x ← octet a b; y ← octet c d; some (x ∷ y ∷ [])
quads (a ∷ b ∷ c ∷ d ∷ e ∷ s) = do
  x ← octet a b
  y ← octet c d
  xs ← quads s
  if e == b'.' then some (x ∷ y ∷ xs) else none
quads s = none

-- MAC-48 or EUI-48, EUI-64, and the 20 octets of IP over InfiniBand.
abbrev pub is_mac_length : ℕ → Bool
is_mac_length n = (n == 6) || (n == 8) || (n == 20)

abbrev pub with_length : Option (List ℕ) → Option (List ℕ)
with_length hw = hw >>= λ xs. keep_if (is_mac_length (length xs)) xs

-- Which form a text has is seen at its third and fifth bytes.
unfoldable pub parse_mac : Bytes → Option (List ℕ)
parse_mac (a ∷ b ∷ c ∷ d ∷ e ∷ s) =
    let text = a ∷ b ∷ c ∷ d ∷ e ∷ s in
    if ltb (length text) 14
    then none
    else if (c == b':') || (c == b'-')
    then with_length (octets c text)
    else if e == b'.'
    then with_length (quads text)
    else none
parse_mac s = none

-- A digit in lower case.
unfoldable pub hex_char : ℕ → ℕ
hex_char n = if ltb n 10 then b'0' + n else b'a' + (n - 10)

unfoldable pub print_octet : ℕ → Bytes
unfolding hex_char
print_octet x = hex_char (x / 16) ∷ hex_char (x % 16) ∷ []

-- `hw.String()`
unfoldable pub print_mac : List ℕ → Bytes
unfolding print_octet join
print_mac hw = join (map print_octet hw) b':'
