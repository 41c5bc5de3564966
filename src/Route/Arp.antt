-- ===== src/Route/Arp.antt =====
-- internal/utils/route/route.go: `CanonicalMAC`, `sameMAC`, `parseArpEntry` and `DecidePin`.
pub mod Mac
pub mod Line
pub mod Decide
use cisco_socks_server.Prelude.{
  ℕ, Bool, true, false, ◌&&◌, ◌||◌, List, [], ◌∷◌, Option, none, some, Bytes, bytes, map, length,
  ◌==◌, if◌then◌else◌, is_empty, str_eq, ◌>>=◌, keep_if,
}
use cisco_socks_server.Strings.{split, join, fields}
use cisco_socks_server.Net.Mac.{parse_mac, print_mac}

-- A single digit gets back the zero that macOS drops.
unfoldable pub restore_zero : Bytes → Bytes
restore_zero p = if length p == 1 then b'0' ∷ p else p

-- `CanonicalMAC`
unfoldable pub canonical_mac : Bytes → Option Bytes
canonical_mac mac = do
  hw ← parse_mac (join (map restore_zero (split mac b':')) b':')
  some (print_mac hw)

abbrev same_canonical : Option Bytes → Option Bytes → Bool
same_canonical (some a) (some b) = str_eq a b
same_canonical _ _ = false

-- `sameMAC`
unfoldable pub same_mac : Bytes → Bytes → Bool
same_mac a b = same_canonical (canonical_mac a) (canonical_mac b)

-- `ArpEntry`
pub record ArpEntry : Type 0 where
  pub mac : Bytes
  pub iface : Bytes

abbrev empty_entry : ArpEntry
empty_entry = record { mac = []; iface = [] }

-- One round of the loop of `parseArpEntry`: a keyword and the field behind it.
unfoldable pub take_field : Bytes → Bytes → ArpEntry → ArpEntry
take_field key value e =
    if str_eq key (bytes "at")
    then record e { mac = value }
    else if str_eq key (bytes "on")
    then record e { iface = value }
    else e

unfoldable pub scan_fields : List Bytes → ArpEntry → ArpEntry
scan_fields [] e = e
scan_fields (f ∷ []) e = e
scan_fields (f ∷ g ∷ fs) e = scan_fields (g ∷ fs) (take_field f g e)

unfoldable pub checked_entry : ArpEntry → Option ArpEntry
checked_entry e = do
  mac ← canonical_mac e.mac
  if is_empty e.iface then none else some (record e { mac = mac })

-- `parseArpEntry`
unfoldable pub parse_arp_entry : Bytes → Option ArpEntry
parse_arp_entry out = checked_entry (scan_fields (fields out) empty_entry)

-- `LookupARP`: the output of `arp -n <ip>`, or `none` where the command fails.
unfoldable pub lookup_arp : Option Bytes → Option ArpEntry
lookup_arp output = output >>= parse_arp_entry

-- `PinAction`
pub data PinAction : Type 0 where
  pin_none pin_adopt pin_repin : PinAction

-- `DecidePin`; `none` is an entry that was not found.
unfoldable pub decide_pin : Option ArpEntry → Bytes → Bytes → PinAction
decide_pin none want_mac iface = if is_empty want_mac then pin_none else pin_repin
decide_pin (some entry) want_mac iface =
    if str_eq entry.iface iface && same_mac entry.mac want_mac
    then pin_none
    else if str_eq entry.iface iface
    then pin_adopt
    else if is_empty want_mac
    then pin_none
    else pin_repin
