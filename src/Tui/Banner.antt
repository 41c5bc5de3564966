-- ===== src/Tui/Banner.antt =====
-- The colours that the banner goes through.
use cisco_socks_server.Prelude.{ℕ, zero, suc, ◌+◌, ◌%◌, ◌≡◌, refl, arith, ◌∙◌, ap}
use cisco_socks_server.Tui.{next_color, color_after}

next_color_lem : (n : ℕ) → next_color (52 + n % 180) ≡ 52 + (n + 1) % 180
unfolding next_color
next_color_lem n = ground arith

-- After its first tick the banner goes round the colours 52 to 231, one at each tick.
pub color_after_lem : (n : ℕ) → color_after (suc n) ≡ 52 + n % 180
unfolding color_after
color_after_lem zero = unfold next_color in refl
color_after_lem (suc n) =
    ap next_color (color_after_lem n) ∙ next_color_lem n ∙ ap (λ k. 52 + k % 180) (omega arith)
