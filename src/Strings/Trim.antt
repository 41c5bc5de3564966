-- ===== src/Strings/Trim.antt =====
-- Lines and their ends: `Split` of a text in two parts, `TrimSpace` and `Cut` around a word.
use cisco_socks_server.Prelude.{
  ℕ, false, [], ◌∷◌, ◌++◌, none, ◌≡◌, refl, Bytes, bytes, is_empty, All, arith,
}
use cisco_socks_server.Strings.Defs.{
  split_parts, split, is_space, trim_left, trim_right, trim_space, cut, cut_prefix,
}
use cisco_socks_server.Strings.Laws.{IsWord}

split_parts-append_any :
    (p s : Bytes) (sep : ℕ)
    → split_parts sep (p ++ (sep ∷ s))
      ≡ ((split_parts sep p).0, (split_parts sep p).1 ++ split s sep)
unfolding split_parts split
split_parts-append_any [] s sep = ground arith
split_parts-append_any (c ∷ p) s sep = ground (arith, split_parts-append_any p s sep)

-- The lines of two texts are those of the first and those of the second.
pub split-append : (p s : Bytes) (sep : ℕ) → split (p ++ (sep ∷ s)) sep ≡ split p sep ++ split s sep
unfolding split
split-append p s sep = rw (split_parts-append_any p s sep) (unfold split in refl)

trim_right-word : (w : Bytes) → All (λ c. is_space c ≡ false) w → trim_right w ≡ w
unfolding trim_right
trim_right-word [] h = refl
trim_right-word (c ∷ w) h = ground (arith, trim_right-word w h.1)

full : (s w : Bytes) → IsWord w → is_empty (s ++ w) ≡ false
full [] [] h = absurd (h.0 refl)
full [] (c ∷ w) h = refl
full (c ∷ s) w h = refl

trim_right-append : (s w : Bytes) → IsWord w → trim_right (s ++ w) ≡ s ++ w
unfolding trim_right
trim_right-append [] w h = trim_right-word w h.1
trim_right-append (c ∷ s) w h = ground (arith, trim_right-append s w h, full s w h)

-- A text that begins with no blank and ends in a word has no blanks around it.
pub trim_space-append :
    (c : ℕ) (s w : Bytes) → is_space c ≡ false → IsWord w → trim_space ((c ∷ s) ++ w) ≡ (c ∷ s) ++ w
unfolding trim_space trim_left
trim_space-append c s w h hw = rw (trim_right-append (c ∷ s) w hw) (rw h)

-- A word holds no blank.
pub cut-word : (w : Bytes) → All (λ c. is_space c ≡ false) w → cut w (bytes " ") ≡ none
unfolding cut cut_prefix
cut-word [] h = refl
cut-word (c ∷ w) h = ground (arith, cut-word w h.1)
