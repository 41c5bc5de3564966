-- ===== src/Strings/Defs.antt =====
-- `strings.Split`, `Join`, `Fields`, `TrimSpace`, `HasPrefix`, `CutPrefix`, `Cut`, `Contains` and
-- `LastIndexByte`, as recursions on the bytes.
use cisco_socks_server.Prelude.{
  ℕ, Bool, ◌&&◌, ◌||◌, List, [], ◌∷◌, ◌++◌, Option, none, some, Bytes, is_empty, ◌==◌, leb,
  if◌then◌else◌, is_some, ◌>>=◌,
}

abbrev pub is_space : ℕ → Bool
is_space c = (c == b' ') || (leb 9 c && leb c 13)

-- The first part of a text and the parts behind each separator.
unfoldable pub split_parts : ℕ → Bytes → Bytes × List Bytes
split_parts sep [] = ([], [])
split_parts sep (c ∷ s) =
    let (p, ps) = split_parts sep s in if c == sep then ([], p ∷ ps) else (c ∷ p, ps)

-- `strings.Split(s, sep)` for a separator of one byte.
unfoldable pub split : Bytes → ℕ → List Bytes
unfolding split_parts
split s sep = (split_parts sep s).0 ∷ (split_parts sep s).1

-- `strings.Join(parts, sep)`
unfoldable pub join : List Bytes → ℕ → Bytes
join [] sep = []
join (p ∷ []) sep = p
join (p ∷ q ∷ ps) sep = p ++ (sep ∷ join (q ∷ ps) sep)

-- A word in front of others, unless it is empty.
abbrev pub push_word : Bytes → List Bytes → List Bytes
push_word [] ws = ws
push_word (c ∷ w) ws = (c ∷ w) ∷ ws

-- The word that a text begins with, and the words behind it.
unfoldable pub field_parts : Bytes → Bytes × List Bytes
field_parts [] = ([], [])
field_parts (c ∷ s) =
    let (w, ws) = field_parts s in if is_space c then ([], push_word w ws) else (c ∷ w, ws)

-- `strings.Fields(s)`
unfoldable pub fields : Bytes → List Bytes
unfolding field_parts
fields s = push_word (field_parts s).0 (field_parts s).1

-- `strings.CutPrefix(s, prefix)`
unfoldable pub cut_prefix : Bytes → Bytes → Option Bytes
cut_prefix s [] = some s
cut_prefix [] (p ∷ ps) = none
cut_prefix (c ∷ s) (p ∷ ps) = let rest = cut_prefix s ps in if c == p then rest else none

-- `strings.HasPrefix(s, prefix)`
unfoldable pub has_prefix : Bytes → Bytes → Bool
unfolding cut_prefix
has_prefix s prefix = is_some (cut_prefix s prefix)

-- `strings.Cut(s, sep)` for a separator that is not empty: what stands before and after it.
unfoldable pub cut : Bytes → Bytes → Option (Bytes × Bytes)
unfolding cut_prefix
cut [] sep = none
cut (c ∷ s) sep = elim (cut_prefix (c ∷ s) sep) [
  | some after ↦ some ([], after)
  | none ↦ cut s sep >>= λ r. some (c ∷ r.0, r.1)
]

-- `strings.Contains(s, sub)` for a text that is not empty.
unfoldable pub contains : Bytes → Bytes → Bool
unfolding cut
contains s sub = is_some (cut s sub)

unfoldable pub trim_left : Bytes → Bytes
trim_left [] = []
trim_left (c ∷ s) = let rest = trim_left s in if is_space c then rest else c ∷ s

unfoldable pub trim_right : Bytes → Bytes
trim_right [] = []
trim_right (c ∷ s) = let rest = trim_right s in if is_empty rest && is_space c then [] else c ∷ rest

-- `strings.TrimSpace(s)`
unfoldable pub trim_space : Bytes → Bytes
unfolding trim_left trim_right
trim_space s = trim_left (trim_right s)

-- `s[:strings.LastIndexByte(s, b)]`, if the byte occurs.
unfoldable pub before_last : Bytes → ℕ → Option Bytes
before_last [] b = none
before_last (c ∷ s) b = elim (before_last s b) [
  | some p ↦ some (c ∷ p)
  | none ↦ if c == b then some [] else none
]
