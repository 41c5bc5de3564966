-- ===== src/Tui/Layout.antt =====
-- internal/utils/tui: the manager function of `CreateTUI`, which lays the panels out again and again,
-- and sets a panel up when its view is new. `SetView` is the gocui library's.
pub mod Once
use cisco_socks_server.Prelude.{
  ℕ, ◌+◌, ◌-◌, Bool, true, false, List, [], ◌∷◌, ◌++◌, Bytes, bytes, leb, if◌then◌else◌,
}

-- Go's `int`, as far as a coordinate goes: `negsuc n` is -(n + 1).
pub data ℤ : Type 0 where
  pos negsuc : ℕ → ℤ

unfoldable pub diff : ℕ → ℕ → ℤ
diff a b = if leb b a then pos (a - b) else negsuc (b - a - 1)

-- `sidebarWidth`
abbrev pub sidebar_width : ℕ
sidebar_width = 22

pub data Panel : Type 0 where
  banner logs status uptime : Panel

abbrev pub name_of : Panel → Bytes
name_of banner = bytes "banner"
name_of logs = bytes "logs"
name_of status = bytes "status"
name_of uptime = bytes "uptime"

-- The corners of a view.
pub record Corners : Type 0 where
  pub x0 : ℤ
  pub y0 : ℤ
  pub x1 : ℤ
  pub y1 : ℤ

-- The corners that `setupBanner`, `setupLogs`, `setupStatus` and `setupUptime` ask for.
abbrev pub banner_corners : ℕ → Corners
banner_corners max_x = record { x0 = pos 0; y0 = pos 0; x1 = diff max_x sidebar_width; y1 = pos 2 }

abbrev pub logs_corners : ℕ → ℕ → Corners
logs_corners max_x max_y = record {
  x0 = pos 0;
  y0 = pos 3;
  x1 = diff max_x sidebar_width;
  y1 = diff max_y 1;
}

abbrev pub status_corners : ℕ → ℕ → Corners
status_corners max_x max_y = record {
  x0 = diff (max_x + 1) sidebar_width;
  y0 = pos 3;
  x1 = diff max_x 1;
  y1 = diff max_y 1;
}

abbrev pub uptime_corners : ℕ → Corners
uptime_corners max_x = record {
  x0 = diff (max_x + 1) sidebar_width;
  y0 = pos 0;
  x1 = diff max_x 1;
  y1 = pos 2;
}

-- Where a panel goes on a terminal of `max_x` by `max_y` characters.
unfoldable pub place : Panel → ℕ → ℕ → Corners
place banner max_x max_y = banner_corners max_x
place logs max_x max_y = logs_corners max_x max_y
place status max_x max_y = status_corners max_x max_y
place uptime max_x max_y = uptime_corners max_x

-- What `SetView` returns: no error, `ErrUnknownView`, or another error.
pub data Answer : Type 0 where
  known new_view refused : Answer

-- What the library keeps of the views, with `SetView`.
pub record Gui (W : Type 0) : Type 0 where
  pub set_view : Bytes → Corners → W → Answer × W

-- Whether the set-up of a panel starts a goroutine: `setupBanner` starts none.
abbrev pub starts : Panel → Bool
starts banner = false
starts logs = true
starts status = true
starts uptime = true

-- The goroutines that the set-ups of panels have started.
unfoldable pub goroutines : List Panel → List Panel
goroutines [] = []
goroutines (p ∷ ps) = let rest = goroutines ps in if starts p then p ∷ rest else rest

-- The library, and the panels that were set up, the latest last.
pub record Views (W : Type 0) : Type 0 where
  pub world : W
  pub set_up : List Panel

abbrev pub no_panels : {W : Type 0} → W → Views W
no_panels w = record { world = w; set_up = [] }

module _ {W : Type 0} (gui : Gui W) where
  -- The test of the error of `SetView`: the views, and whether there is no error to return.
  unfoldable pub on_view : Panel → Answer → W → List Panel → Views W × Bool
  on_view p known w ps = (record { world = w; set_up = ps }, true)
  on_view p new_view w ps = (record { world = w; set_up = ps ++ (p ∷ []) }, true)
  on_view p refused w ps = (record { world = w; set_up = ps }, false)

  -- `setupBanner`, `setupLogs`, `setupStatus`, `setupUptime`
  unfoldable pub set_up_panel : Panel → ℕ → ℕ → Views W → Views W × Bool
  set_up_panel p max_x max_y s =
      let (answer, w) = gui.set_view (name_of p) (place p max_x max_y) s.world in
      on_view p answer w s.set_up

  -- The panels one after the other, up to the first error.
  unfoldable pub set_up_all : List Panel → ℕ → ℕ → Views W → Views W × Bool
  set_up_all [] max_x max_y s = (s, true)
  set_up_all (p ∷ ps) max_x max_y s =
      let (s', fine) = set_up_panel p max_x max_y s in
      let rest = set_up_all ps max_x max_y s' in if fine then rest else (s', false)

  -- The manager function.
  unfoldable pub lay_out : ℕ → ℕ → Views W → Views W × Bool
  lay_out = set_up_all (banner ∷ logs ∷ status ∷ uptime ∷ [])

  -- The calls of the manager function, with the size of the terminal at each; the first error ends
  -- `MainLoop`.
  unfoldable pub lay_outs : List (ℕ × ℕ) → Views W → Views W × Bool
  lay_outs [] s = (s, true)
  lay_outs ((max_x, max_y) ∷ more) s =
      let (s', fine) = lay_out max_x max_y s in
      let rest = lay_outs more s' in if fine then rest else (s', false)
