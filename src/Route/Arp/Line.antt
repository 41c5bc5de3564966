-- ===== src/Route/Arp/Line.antt =====
-- The lines that `arp -n` prints are read as the entries that they show.
use cisco_socks_server.Prelude.{
  false, List, [], ◌∷◌, ◌++◌, none, some, Bytes, bytes, All, ◌≡◌, ◌≢◌, refl, arith, str_eq,
  is_empty, >>=-eq-some, if_elim,
}
use cisco_socks_server.Strings.{fields, fields-append, IsWord}
use cisco_socks_server.Route.Arp.{
  ArpEntry, take_field, scan_fields, checked_entry, parse_arp_entry, canonical_mac,
}
use cisco_socks_server.Route.Arp.Mac.{canonical_mac_idem}

-- A word that is no keyword of the line.
abbrev pub IsPlain : Bytes → Type 0
IsPlain w = (str_eq w (bytes "at") ≡ false) × (str_eq w (bytes "on") ≡ false)

-- A blank between two texts.
infixr 66 ◌␣◌
abbrev ◌␣◌ : Bytes → Bytes → Bytes
w ␣ s = w ++ (b' ' ∷ s)

-- `? (ip) at <mac> on <iface> ...`
abbrev pub arp_line : Bytes → Bytes → Bytes → Bytes → Bytes
arp_line host mac iface tail = bytes "?" ␣ host ␣ bytes "at" ␣ mac ␣ bytes "on" ␣ iface ␣ tail

take_field_plain : (w v : Bytes) (e : ArpEntry) → IsPlain w → take_field w v e ≡ e
unfolding take_field
take_field_plain w v e h = rw (h.0, h.1)

scan_fields_plain : (ws : List Bytes) (e : ArpEntry) → All IsPlain ws → scan_fields ws e ≡ e
unfolding scan_fields
scan_fields_plain [] e h = refl
scan_fields_plain (w ∷ []) e h = refl
scan_fields_plain (w ∷ v ∷ ws) e h =
    rw (take_field_plain w v e h.0) (scan_fields_plain (v ∷ ws) e h.1)

fields_line :
    (host mac iface tail : Bytes)
    → IsWord host
    → IsWord mac
    → IsWord iface
    → fields (arp_line host mac iface tail)
      ≡ bytes "?" ∷ host ∷ bytes "at" ∷ mac ∷ bytes "on" ∷ iface ∷ fields tail
fields_line host mac iface tail hh hm hi = rw (
  fields-append (bytes "?") (host ␣ bytes "at" ␣ mac ␣ bytes "on" ␣ iface ␣ tail) (cc, (refl, tt)),
  fields-append host (bytes "at" ␣ mac ␣ bytes "on" ␣ iface ␣ tail) hh,
  fields-append (bytes "at") (mac ␣ bytes "on" ␣ iface ␣ tail) (cc, (refl, (refl, tt))),
  fields-append mac (bytes "on" ␣ iface ␣ tail) hm,
  fields-append (bytes "on") (iface ␣ tail) (cc, (refl, (refl, tt))),
  fields-append iface tail hi,
)

scan_line :
    (host mac iface : Bytes) (ws : List Bytes) (e : ArpEntry)
    → IsPlain host
    → IsPlain mac
    → IsPlain iface
    → All IsPlain ws
    → scan_fields (bytes "?" ∷ host ∷ bytes "at" ∷ mac ∷ bytes "on" ∷ iface ∷ ws) e
      ≡ record { mac = mac; iface = iface }
unfolding scan_fields
scan_line host mac iface ws e hh hm hi hw =
    rw
      (
        take_field_plain host (bytes "at") _ hh,
        take_field_plain mac (bytes "on") _ hm,
        scan_fields_plain (iface ∷ ws) _ (hi, hw),
      )
      (unfold take_field str_eq in refl)

checked_entry_lem :
    (mac iface m : Bytes)
    → canonical_mac mac ≡ some m
    → iface ≢ []
    → checked_entry (record { mac = mac; iface = iface }) ≡ some (record { mac = m; iface = iface })
unfolding checked_entry
checked_entry_lem mac [] m h ne = absurd (ne refl)
checked_entry_lem mac (c ∷ s) m h ne = rw h

-- A printed line is read as its address, in canonical form, and its interface, whatever follows,
-- as long as no other word of the line is `at` or `on`.
pub parse_arp_entry-line :
    (host mac iface tail m : Bytes)
    → IsWord host × IsPlain host
    → IsWord mac × IsPlain mac
    → IsWord iface × IsPlain iface
    → All IsPlain (fields tail)
    → canonical_mac mac ≡ some m
    → parse_arp_entry (arp_line host mac iface tail) ≡ some (record { mac = m; iface = iface })
unfolding parse_arp_entry
parse_arp_entry-line host mac iface tail m hh hm hi ht h =
    rw
      (
        fields_line host mac iface tail hh.0 hm.0 hi.0,
        scan_line host mac iface (fields tail) _ hh.1 hm.1 hi.1 ht,
      )
      (checked_entry_lem mac iface m h hi.0.0)

checked_entry_sound :
    (r : ArpEntry) {e : ArpEntry}
    → checked_entry r ≡ some e
    → (canonical_mac r.mac ≡ some e.mac) × (e.iface ≢ [])
unfolding checked_entry
checked_entry_sound r {e} h =
    let (m, em, h') = >>=-eq-some (canonical_mac r.mac) _ h in
    if_elim (λ o. o ≡ some e → (canonical_mac r.mac ≡ some e.mac) × (e.iface ≢ []))
      (is_empty r.iface) none (some (record r { mac = m })) (λ _ k. cc)
      (λ full k. ground (arith, em)) h'

-- An entry that is found has a canonical address and names an interface.
pub parse_arp_entry_sound :
    (out : Bytes) {e : ArpEntry}
    → parse_arp_entry out ≡ some e
    → (canonical_mac e.mac ≡ some e.mac) × (e.iface ≢ [])
unfolding parse_arp_entry
parse_arp_entry_sound out h =
    let (em, ne) = checked_entry_sound _ h in ((canonical_mac_idem _ em).0, ne)
