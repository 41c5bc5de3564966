-- ===== src/Strings/Laws.antt =====
-- Round trips of `Split` and `Join`, and of `Fields`.
use cisco_socks_server.Prelude.{
  ℕ, Bool, true, false, List, [], ◌∷◌, ◌++◌, ◌≡◌, ◌≢◌, refl, Bytes, if◌then◌else◌, All, arith,
}
use cisco_socks_server.Strings.Defs.{split_parts, split, join, field_parts, fields, is_space}

-- No byte of the text is the separator.
abbrev pub Lacks : ℕ → Bytes → Type 0
Lacks b = All (λ c. c ≢ b)

-- A word: not empty, and no white space in it.
abbrev pub IsWord : Bytes → Type 0
IsWord w = (w ≢ []) × All (λ c. is_space c ≡ false) w

split_parts-append :
    (p s : Bytes) (sep : ℕ)
    → Lacks sep p
    → split_parts sep (p ++ (sep ∷ s)) ≡ (p, (split_parts sep s).0 ∷ (split_parts sep s).1)
unfolding split_parts
split_parts-append [] s sep h = ground arith
split_parts-append (c ∷ p) s sep h = ground (arith, split_parts-append p s sep h.1)

split_parts-Lacks : (p : Bytes) (sep : ℕ) → Lacks sep p → split_parts sep p ≡ (p, [])
unfolding split_parts
split_parts-Lacks [] sep h = refl
split_parts-Lacks (c ∷ p) sep h = ground (arith, split_parts-Lacks p sep h.1)

split_parts-join :
    (p : Bytes) (ps : List Bytes) (sep : ℕ)
    → All (Lacks sep) (p ∷ ps)
    → split_parts sep (join (p ∷ ps) sep) ≡ (p, ps)
unfolding join
split_parts-join p [] sep h = split_parts-Lacks p sep h.0
split_parts-join p (q ∷ ps) sep h =
    rw (split_parts-append p (join (q ∷ ps) sep) sep h.0, split_parts-join q ps sep h.1)

-- Splitting a join gives the parts back.
pub split-join :
    (p : Bytes) (ps : List Bytes) (sep : ℕ)
    → All (Lacks sep) (p ∷ ps)
    → split (join (p ∷ ps) sep) sep ≡ p ∷ ps
unfolding split
split-join p ps sep h = rw (split_parts-join p ps sep h)

-- The first word of a text, up to a blank.
field_parts-append :
    (w s : Bytes) → All (λ c. is_space c ≡ false) w → field_parts (w ++ (b' ' ∷ s)) ≡ (w, fields s)
unfolding field_parts fields
field_parts-append [] s h = refl
field_parts-append (c ∷ w) s h = ground (arith, field_parts-append w s h.1)

pub fields-append : (w s : Bytes) → IsWord w → fields (w ++ (b' ' ∷ s)) ≡ w ∷ fields s
unfolding fields
fields-append [] s h = absurd (h.0 refl)
fields-append (c ∷ w) s h = rw (field_parts-append (c ∷ w) s h.1)

field_parts-word : (w : Bytes) → All (λ c. is_space c ≡ false) w → field_parts w ≡ (w, [])
unfolding field_parts
field_parts-word [] h = refl
field_parts-word (c ∷ w) h = ground (arith, field_parts-word w h.1)

pub fields-word : (w : Bytes) → IsWord w → fields w ≡ w ∷ []
unfolding fields
fields-word [] h = absurd (h.0 refl)
fields-word (c ∷ w) h = rw (field_parts-word (c ∷ w) h.1)

join-cons :
    (c : ℕ) (p : Bytes) (ps : List Bytes) (sep : ℕ)
    → join ((c ∷ p) ∷ ps) sep ≡ c ∷ join (p ∷ ps) sep
unfolding join
join-cons c p [] sep = refl
join-cons c p (q ∷ ps) sep = refl

join-nil :
    (p : Bytes) (ps : List Bytes) (sep : ℕ) → join ([] ∷ p ∷ ps) sep ≡ sep ∷ join (p ∷ ps) sep
unfolding join
join-nil p ps sep = refl

join-split_parts :
    (s : Bytes) (sep : ℕ) → join ((split_parts sep s).0 ∷ (split_parts sep s).1) sep ≡ s
unfolding split_parts
join-split_parts [] sep = unfold join in refl
join-split_parts (c ∷ s) sep = ground (
  arith,
  join-nil (split_parts sep s).0 (split_parts sep s).1 sep,
  join-cons c (split_parts sep s).0 (split_parts sep s).1 sep,
  join-split_parts s sep,
)

-- Joining the parts of a split gives the text back.
pub join-split : (s : Bytes) (sep : ℕ) → join (split s sep) sep ≡ s
unfolding split
join-split s sep = join-split_parts s sep

pub split-Lacks : (p : Bytes) (sep : ℕ) → Lacks sep p → split p sep ≡ p ∷ []
unfolding split
split-Lacks p sep h = rw (split_parts-Lacks p sep h)

is_word_tail : Bytes → Bool
is_word_tail [] = true
is_word_tail (c ∷ w) = let rest = is_word_tail w in if is_space c then false else rest

is_word_tail-All : (w : Bytes) → is_word_tail w ≡ true → All (λ c. is_space c ≡ false) w
unfolding is_word_tail
is_word_tail-All [] h = tt
is_word_tail-All (c ∷ w) h = (ground arith, is_word_tail-All w (ground arith))

-- Whether a text is a word.
unfoldable pub is_word : Bytes → Bool
unfolding is_word_tail
is_word [] = false
is_word (c ∷ w) = is_word_tail (c ∷ w)

pub is_word-IsWord : (w : Bytes) → is_word w ≡ true → IsWord w
unfolding is_word
is_word-IsWord [] h = ground arith
is_word-IsWord (c ∷ w) h = (cc, is_word_tail-All (c ∷ w) h)
