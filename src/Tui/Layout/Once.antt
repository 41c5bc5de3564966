-- ===== src/Tui/Layout/Once.antt =====
-- How often a panel is set up, and its goroutine started.
use cisco_socks_server.Prelude.{
  ℕ, ◌+◌, ◌≤◌, Bool, true, false, ◌||◌, List, [], ◌∷◌, ◌++◌, Bytes, ◌≡◌, refl, sym, ap, ◌∙◌, inl,
  inr, arith, str_eq, str_eq_iff, if◌then◌else◌, if_elim, All, Bool-cases,
}
use cisco_socks_server.Tui.Layout.{
  Panel, banner, logs, status, uptime, name_of, starts, goroutines, Corners, place, Answer, known,
  new_view, refused, Gui, Views, no_panels, on_view, set_up_panel, set_up_all, lay_out, lay_outs,
}

abbrev bit : Bool → ℕ
bit b = if b then 1 else 0

-- How often a panel of this name is in the list.
unfoldable pub times : Bytes → List Panel → ℕ
times n [] = 0
times n (p ∷ ps) = bit (str_eq (name_of p) n) + times n ps

times-snoc :
    (n : Bytes) (ps : List Panel) (p : Panel)
    → times n (ps ++ (p ∷ [])) ≡ times n ps + bit (str_eq (name_of p) n)
unfolding times
times-snoc n [] p = omega arith
times-snoc n (q ∷ ps) p = let rest = times-snoc n ps p in omega arith

-- A panel counts for another only if both start a goroutine or neither does.
clash :
    (q p : Panel)
    → (if starts q then bit (str_eq (name_of q) (name_of p)) else 0)
      ≡ (if starts p then bit (str_eq (name_of q) (name_of p)) else 0)
unfolding str_eq
clash banner banner = refl
clash banner logs = refl
clash banner status = refl
clash banner uptime = refl
clash logs banner = refl
clash logs logs = refl
clash logs status = refl
clash logs uptime = refl
clash status banner = refl
clash status logs = refl
clash status status = refl
clash status uptime = refl
clash uptime banner = refl
clash uptime logs = refl
clash uptime status = refl
clash uptime uptime = refl

times-goroutines :
    (p : Panel) (ps : List Panel)
    → times (name_of p) (goroutines ps) ≡ (if starts p then times (name_of p) ps else 0)
unfolding times goroutines
times-goroutines p [] = ground arith
times-goroutines p (q ∷ ps) = ground (arith, clash q p, times-goroutines p ps)

module _ {W : Type 0} (gui : Gui W) (has : Bytes → W → Bool) where
  -- What the library documents of `SetView`: it gives `ErrUnknownView` exactly if it makes a view of
  -- a name that it did not have, and it never takes a view away.
  abbrev pub Documented : Bytes → W → Answer × W → Type 0
  Documented n w (known, w') = (has n w ≡ true) × ((m : Bytes) → has m w' ≡ has m w)
  Documented n w (new_view, w') =
      (has n w ≡ false) × ((m : Bytes) → has m w' ≡ (str_eq n m || has m w))
  Documented n w (refused, w') = (m : Bytes) → has m w' ≡ has m w

  -- Each panel was set up as often as the library has its view.
  abbrev IsExact : Views W → Type 0
  IsExact s = (n : Bytes) → times n s.set_up ≡ bit (has n s.world)

  on_view-IsExact :
      (p : Panel) (answer : Answer) (w w' : W) (ps : List Panel)
      → Documented (name_of p) w (answer, w')
      → ((n : Bytes) → times n ps ≡ bit (has n w))
      → IsExact (on_view gui p answer w' ps).0
  unfolding on_view
  on_view-IsExact p known w w' ps (there, same) h n = h n ∙ ap bit (sym (same n))
  on_view-IsExact p new_view w w' ps (fresh, more) h n =
      times-snoc n ps p ∙ elim (Bool-cases (str_eq (name_of p) n)) [
        | inl e ↦ ground (arith, e, h n, more n, fresh, (str_eq_iff (name_of p) n).0 e)
        | inr e ↦ ground (arith, e, h n, more n)
      ]
  on_view-IsExact p refused w w' ps same h n = h n ∙ ap bit (sym (same n))

  on_view-keeps :
      (p : Panel) (answer : Answer) (w w' : W) (ps : List Panel) (n : Bytes)
      → Documented (name_of p) w (answer, w')
      → has n w ≡ true
      → has n (on_view gui p answer w' ps).0.world ≡ true
  unfolding on_view
  on_view-keeps p known w w' ps n (there, same) h = same n ∙ h
  on_view-keeps p new_view w w' ps n (fresh, more) h = ground (arith, more n, h)
  on_view-keeps p refused w w' ps n same h = same n ∙ h

  on_view-shows :
      (p : Panel) (answer : Answer) (w w' : W) (ps : List Panel)
      → Documented (name_of p) w (answer, w')
      → (on_view gui p answer w' ps).1 ≡ true
      → has (name_of p) (on_view gui p answer w' ps).0.world ≡ true
  unfolding on_view
  on_view-shows p known w w' ps (there, same) fine = same (name_of p) ∙ there
  on_view-shows p new_view w w' ps (fresh, more) fine =
      ground (arith, more (name_of p), (str_eq_iff (name_of p) (name_of p)).1 refl)
  on_view-shows p refused w w' ps same fine = absurd (cc fine)

  abbrev panels : List Panel
  panels = banner ∷ logs ∷ status ∷ uptime ∷ []

  -- Every panel of the list has its view.
  abbrev Shows : List Panel → W → Type 0
  Shows ps w = All (λ (p : Panel). has (name_of p) w ≡ true) ps

  shown : (w : W) (p : Panel) → Shows panels w → has (name_of p) w ≡ true
  shown w banner h = h.0
  shown w logs h = h.1.0
  shown w status h = h.1.1.0
  shown w uptime h = h.1.1.1.0

  module _ (documented : (n : Bytes) (r : Corners) (w : W) → Documented n w (gui.set_view n r w))
      (max_x max_y : ℕ) where
    abbrev after : Panel → Views W → Views W × Bool
    after p s = set_up_panel gui p max_x max_y s

    abbrev after_all : List Panel → Views W → Views W × Bool
    after_all ps s = set_up_all gui ps max_x max_y s

    answered :
        (p : Panel) (s : Views W)
        → Documented (name_of p) s.world (gui.set_view (name_of p) (place p max_x max_y) s.world)
    answered p s = documented (name_of p) (place p max_x max_y) s.world

    set_up_all-IsExact : (ps : List Panel) (s : Views W) → IsExact s → IsExact (after_all ps s).0
    unfolding set_up_all set_up_panel
    set_up_all-IsExact [] s h = h
    set_up_all-IsExact (p ∷ ps) s h =
        let one = on_view-IsExact p _ s.world _ s.set_up (answered p s) h in
        if_elim (λ (r : Views W × Bool). IsExact r.0) (after p s).1 _ _
          (λ _. set_up_all-IsExact ps (after p s).0 one) (λ _. one)

    set_up_all-keeps :
        (ps : List Panel) (s : Views W) (n : Bytes)
        → has n s.world ≡ true
        → has n (after_all ps s).0.world ≡ true
    unfolding set_up_all set_up_panel
    set_up_all-keeps [] s n h = h
    set_up_all-keeps (p ∷ ps) s n h =
        let one = on_view-keeps p _ s.world _ s.set_up n (answered p s) h in
        if_elim (λ (r : Views W × Bool). has n r.0.world ≡ true) (after p s).1 _ _
          (λ _. set_up_all-keeps ps (after p s).0 n one) (λ _. one)

    set_up_all-Shows :
        (ps : List Panel) (s : Views W)
        → (after_all ps s).1 ≡ true
        → Shows ps (after_all ps s).0.world
    unfolding set_up_all set_up_panel
    set_up_all-Shows [] s fine = tt
    set_up_all-Shows (p ∷ ps) s fine =
        if_elim (λ (r : Views W × Bool). r.1 ≡ true → Shows (p ∷ ps) r.0.world) (after p s).1 _ _
          (λ e fine. (
            set_up_all-keeps ps (after p s).0 (name_of p)
                (on_view-shows p _ s.world _ s.set_up (answered p s) e),
            set_up_all-Shows ps (after p s).0 fine,
          ))
          (λ e fine. absurd (cc (e, fine))) fine

  module _
      (documented : (n : Bytes) (r : Corners) (w : W) → Documented n w (gui.set_view n r w)) where
    lay_outs-IsExact :
        (sizes : List (ℕ × ℕ)) (s : Views W) → IsExact s → IsExact (lay_outs gui sizes s).0
    unfolding lay_outs lay_out
    lay_outs-IsExact [] s h = h
    lay_outs-IsExact ((max_x, max_y) ∷ more) s h =
        let one = set_up_all-IsExact documented max_x max_y panels s h in
        if_elim (λ (r : Views W × Bool). IsExact r.0) (lay_out gui max_x max_y s).1 _ _
          (λ _. lay_outs-IsExact more (lay_out gui max_x max_y s).0 one) (λ _. one)

    lay_outs-keeps :
        (sizes : List (ℕ × ℕ)) (s : Views W) (n : Bytes)
        → has n s.world ≡ true
        → has n (lay_outs gui sizes s).0.world ≡ true
    unfolding lay_outs lay_out
    lay_outs-keeps [] s n h = h
    lay_outs-keeps ((max_x, max_y) ∷ more) s n h =
        let one = set_up_all-keeps documented max_x max_y panels s n h in
        if_elim (λ (r : Views W × Bool). has n r.0.world ≡ true) (lay_out gui max_x max_y s).1 _ _
          (λ _. lay_outs-keeps more (lay_out gui max_x max_y s).0 n one) (λ _. one)

    lay_outs-shows :
        (size : ℕ × ℕ) (more : List (ℕ × ℕ)) (s : Views W) (p : Panel)
        → (lay_outs gui (size ∷ more) s).1 ≡ true
        → has (name_of p) (lay_outs gui (size ∷ more) s).0.world ≡ true
    unfolding lay_outs lay_out
    lay_outs-shows (max_x, max_y) more s p fine =
        if_elim (λ (r : Views W × Bool). r.1 ≡ true → has (name_of p) r.0.world ≡ true)
          (lay_out gui max_x max_y s).1 _ _
          (λ e _. lay_outs-keeps more (lay_out gui max_x max_y s).0 (name_of p) (
            shown (lay_out gui max_x max_y s).0.world p
              (set_up_all-Shows documented max_x max_y panels s e)))
          (λ e fine. absurd (cc (e, fine))) fine

    -- However often and at whatever sizes the panels are laid out, on a library that starts without
    -- views: each panel is set up at most once, also when a call fails, and exactly once when no
    -- call fails and there was at least one; and for each set-up there is one goroutine of the panel,
    -- but for the banner, which has none.
    pub lay_outs_once :
        (size : ℕ × ℕ) (more : List (ℕ × ℕ)) (w : W) (p : Panel)
        → ((n : Bytes) → has n w ≡ false)
        → let (s, fine) = lay_outs gui (size ∷ more) (no_panels w) in
          (times (name_of p) s.set_up ≤ 1)
          × (fine ≡ true → times (name_of p) s.set_up ≡ 1)
          × (times (name_of p) (goroutines s.set_up)
              ≡ (if starts p then times (name_of p) s.set_up else 0))
    unfolding times
    lay_outs_once size more w p empty =
        let exact =
          lay_outs-IsExact (size ∷ more) (no_panels w) (λ n. sym (ap bit (empty n))) (name_of p) in
        (
          ground (arith, exact),
          λ fine. exact ∙ ap bit (lay_outs-shows size more (no_panels w) p fine),
          times-goroutines p (lay_outs gui (size ∷ more) (no_panels w)).0.set_up,
        )
