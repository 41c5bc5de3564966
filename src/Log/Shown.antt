-- ===== src/Log/Shown.antt =====
-- What a terminal shows of a text with colours.
use cisco_socks_server.Prelude.{
  ℕ, ◌<◌, true, false, Bool, [], ◌∷◌, ◌++◌, Bytes, bytes, if◌then◌else◌, ◌==◌, ◌≡◌, refl, sym, ap,
  ◌∙◌, arith, All-append, append_assoc, append-nil, subst,
}
use cisco_socks_server.Strings.{Lacks}
use cisco_socks_server.Net.Addr.{print_decimal}
use cisco_socks_server.Log.{escape, colorize}

-- The text without its escape sequences, each from an escape to an `m`; the flag says that the
-- text begins inside one.
unfoldable pub shown : Bool → Bytes → Bytes
shown true [] = []
shown true (c ∷ s) = if c == b'm' then shown false s else shown true s
shown false [] = []
shown false (c ∷ s) = let rest = shown false s in if c == escape then shown true s else c ∷ rest

shown-code : (p s : Bytes) → Lacks b'm' p → shown true (p ++ (b'm' ∷ s)) ≡ shown false s
unfolding shown
shown-code [] s h = refl
shown-code (c ∷ p) s h = ground (arith, shown-code p s h.1)

-- A text shows another one, whatever stands behind it.
pub record Shows (p q : Bytes) : Type 0 where
  pub at : (s : Bytes) → shown false (p ++ s) ≡ q ++ shown false s

-- No escape in the text.
abbrev pub IsPlain : Bytes → Type 0
IsPlain = Lacks escape

pub plain-shown : (p s : Bytes) → IsPlain p → shown false (p ++ s) ≡ p ++ shown false s
unfolding shown
plain-shown [] s h = refl
plain-shown (c ∷ p) s h = ground (arith, plain-shown p s h.1)

pub Shows-plain : (p : Bytes) → IsPlain p → Shows p p
Shows-plain p h = record { at = λ s. plain-shown p s h }

pub Shows-append : {p p' q q' : Bytes} → Shows p p' → Shows q q' → Shows (p ++ q) (p' ++ q')
Shows-append {p} {p'} {q} {q'} hp hq = record {
  at = λ s.
      ap (shown false) (append_assoc p q s)
      ∙ hp.at (q ++ s)
      ∙ ap (λ r. p' ++ r) (hq.at s)
      ∙ sym (append_assoc p' q' (shown false s));
}

code-shown : (p s : Bytes) → Lacks b'm' p → shown false (escape ∷ (p ++ (b'm' ∷ s))) ≡ shown false s
unfolding shown
code-shown p s h = shown-code p s h

Shows-code : (p : Bytes) → Lacks b'm' p → Shows (escape ∷ (p ++ (b'm' ∷ []))) []
Shows-code p h = record {
  at = λ s. ap (λ q. shown false (escape ∷ q)) (append_assoc p (b'm' ∷ []) s) ∙ code-shown p s h;
}

print_decimal-Lacks : (n : ℕ) → n < 256 → Lacks b'm' (print_decimal n)
unfolding print_decimal
print_decimal-Lacks n h = ground arith

abbrev code : ℕ → Bytes
code c = bytes "[38;5;" ++ print_decimal c

colorize_lem :
    (t : Bytes) (c : ℕ)
    → (escape ∷ (code c ++ (b'm' ∷ []))) ++ (t ++ (escape ∷ (bytes "[0" ++ (b'm' ∷ []))))
      ≡ colorize t c
unfolding colorize
colorize_lem t c = simp (append_assoc)

-- The colour of a text is not shown.
pub Shows-colorize : (t : Bytes) (c : ℕ) → c < 256 → IsPlain t → Shows (colorize t c) t
Shows-colorize t c h clean =
    subst (λ p. Shows p t) (colorize_lem t c)
      (subst (Shows _) (append-nil t) (
        Shows-append
          (Shows-code (code c) (
            All-append _ (bytes "[38;5;") (print_decimal c) (omega arith)
              (print_decimal-Lacks c h)))
          (Shows-append (Shows-plain t clean) (Shows-code (bytes "[0") (omega arith)))))
