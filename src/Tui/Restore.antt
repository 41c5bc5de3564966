-- ===== src/Tui/Restore.antt =====
-- What the terminal interface leaves behind.
use cisco_socks_server.Prelude.{true, false, none, ◌≡◌, ◌↔◌, arith}
use cisco_socks_server.Tui.Session.{Screen, TuiInput, quits, run_gui, with_gui, create_tui}

-- However it ends, the terminal interface leaves stdout and stderr as they were and the screen to
-- the shell; it returns without an error exactly when everything could be set up and the main loop
-- was quit. The screen is the shell's at the start.
pub create_tui_restores :
    (inp : TuiInput) (s : Screen)
    → s.drawn ≡ false
    → let (s', e) = create_tui inp s in
      (s'.stdout ≡ s.stdout)
      × (s'.stderr ≡ s.stderr)
      × (s'.drawn ≡ false)
      × ((e ≡ none) ↔ (
          (inp.opens_null ≡ true)
          × (inp.opens_gui ≡ true)
          × (inp.binds_keys ≡ true)
          × (inp.loop ≡ quits)))
unfolding create_tui with_gui run_gui
create_tui_restores inp s free = ground arith
