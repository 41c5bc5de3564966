-- ===== src/Tests/Output.antt =====
-- The commands' lines, the configuration, the exit code, and what is shown.
use cisco_socks_server.Tui.Layout.{
  goroutines, ℤ, pos, negsuc, logs, name_of, Corners, known, new_view, refused, Gui, no_panels,
  lay_outs,
}
use cisco_socks_server.Tui.Layout.Once.{Documented, times, lay_outs_once}
use cisco_socks_server.Prelude.{
  ℕ, ◌≤◌, Bool, not, ◌&&◌, ltb, listed, if◌then◌else◌, if_elim, true, false, List, [], ◌∷◌, ◌++◌,
  none, some, Option, Bytes, bytes, length, ◌≡◌, refl, All, arith, ◌↔◌, ◌⊎◌,
}
use mathlib.Core.List.{Perm}
use cisco_socks_server.Strings.{trim_space}
use cisco_socks_server.Shell.{Process, exited, tail_size, drop_cr}
use cisco_socks_server.Shell.Lines.{IsLine, unlines}
use cisco_socks_server.Shell.Tail.{joined, last_bytes}
use cisco_socks_server.Route.Commands.{Args, watch_syn}
use cisco_socks_server.Route.Syn.Watch.{each_syn, syns_of, watch_syn-lines}
use cisco_socks_server.Config.Load.{
  Environment, parsed, asked_help, load_config, loaded, IsRead, load_config_iff,
}
use cisco_socks_server.Config.Validate.{IsComplete}
use cisco_socks_server.Config.{Config}
use cisco_socks_server.Main.{run, exit_code}
use cisco_socks_server.Main.Outcome.{as_error, process_succeeds_iff}
use cisco_socks_server.Tui.Session.{terminal, Screen, TuiError, TuiInput, quits, create_tui}
use cisco_socks_server.Log.{LogRecord, ColorHandler, handle, level_warn, level_info}
use cisco_socks_server.Log.Shown.{shown}
use cisco_socks_server.Log.Render.{plain_line, handle-plain}
use cisco_socks_server.Tui.{log_capacity}
use cisco_socks_server.Tui.Queue.{
  Event, drawn, written, read, lines_of, IsThinned, empty_view, run_bounded,
}
use cisco_socks_server.Tui.Queue
use cisco_socks_server.Tests.Samples.{sample_v6, en0}
use cisco_socks_server.Tests.Outside.{config}

abbrev two_lines : List Bytes
two_lines =
    bytes
      "72:ce:39:12:45:0f > 12:49:61:d3:72:48, ethertype IPv4 (0x0800), length 78: 192.168.0.42.54321 > 192.168.0.105.8080: Flags [S]"
    ∷ bytes "no SYN"
    ∷ []

lines-IsLine : All IsLine two_lines
unfolding drop_cr
lines-IsLine = ((omega arith, omega arith, refl), ((omega arith, omega arith, refl), tt))

-- `tcpdump` prints two lines and fails.
abbrev dumps : Args → Process
dumps args = record {
  starts = true;
  stdout = unlines two_lines;
  stderr = bytes "no such device" ∷ [];
  fails = true;
}

abbrev note : ℕ → Bytes → List Bytes → List Bytes
note ip mac macs = mac ∷ macs

watch_syn-lines_example : watch_syn dumps en0 (bytes "8080") note [] ≡ (
  each_syn note (syns_of two_lines) [],
  some (exited (trim_space (last_bytes tail_size (joined (bytes "no such device" ∷ []))))),
)
watch_syn-lines_example =
    watch_syn-lines dumps en0 (bytes "8080") note two_lines [] refl refl lines-IsLine

abbrev environment : Environment
environment = record {
  flags = parsed true false;
  sudo_user = some (bytes "ann");
  home_of = λ name. some (bytes "/Users/ann");
  file_in = λ home. some (bytes "user: user");
  unmarshal = λ text. some config;
}

load_config_iff_example :
    (load_config environment ≡ loaded config) ↔ (IsRead environment config × IsComplete config)
load_config_iff_example = load_config_iff environment config

abbrev by_handler : ColorHandler
by_handler = record {
  level = level_info;
  attrs = record { key = bytes "ip"; value = some (bytes "10.0.0.7") } ∷ [];
}

abbrev failure : LogRecord
failure = record {
  time = 45_296;
  level = level_warn;
  message = bytes "pin failed";
  attrs =
      record { key = bytes "error"; value = some (bytes "timeout") }
      ∷ record { key = bytes "try"; value = some (bytes "2") }
      ∷ [];
}

handle-plain_example :
    shown false (handle by_handler failure) ≡ plain_line (by_handler.attrs ++ failure.attrs) failure
handle-plain_example = handle-plain by_handler failure (omega arith) (omega arith)

-- Two lines are printed in the other order than they were written.
abbrev some_events : List Event
some_events =
    written (bytes "one")
    ∷ written (bytes "two")
    ∷ read
    ∷ read
    ∷ drawn 1
    ∷ drawn 0
    ∷ written (bytes "three")
    ∷ []

run_bounded_example :
    let v = Queue.run empty_view some_events in
    (taken : List Bytes) × IsThinned (taken ++ v.logs) (lines_of some_events)
    × Perm taken (v.printed ++ v.updates)
    × (length v.logs ≤ log_capacity)
run_bounded_example = run_bounded some_events

-- The service fails, or not.
abbrev starts_well : Config → Option ℕ
starts_well cfg = none

abbrev code_of : TuiError → ℕ
code_of e = 2

abbrev at_shell : Screen
at_shell = record { stdout = terminal; stderr = terminal; drawn = false; done = false }

abbrev quit_by_key : TuiInput
quit_by_key = record { opens_null = true; opens_gui = true; binds_keys = true; loop = quits }

process_succeeds_iff_example :
    (exit_code (
        run
          (load_config environment)
          starts_well
          (as_error code_of (create_tui quit_by_key at_shell).1))
      ≡ 0)
    ↔ ((environment.flags ≡ asked_help)
        ⊎ ((cfg : Config) × (IsRead environment cfg × IsComplete cfg)
            × (starts_well cfg ≡ none)
            × ((cfg.no_tui ≡ true)
                ⊎ ((quit_by_key.opens_null ≡ true)
                    × (quit_by_key.opens_gui ≡ true)
                    × (quit_by_key.binds_keys ≡ true)
                    × (quit_by_key.loop ≡ quits)))))
process_succeeds_iff_example =
    process_succeeds_iff environment starts_well code_of quit_by_key at_shell refl

-- A library that makes a view if its corners are in order.
abbrev before : ℤ → ℤ → Bool
before (pos a) (pos b) = ltb a b
before (pos a) (negsuc b) = false
before (negsuc a) (pos b) = true
before (negsuc a) (negsuc b) = ltb b a

abbrev sample_gui : Gui (List Bytes)
sample_gui = record {
  set_view = λ n r w.
      if not (before r.x0 r.x1 && before r.y0 r.y1)
      then (refused, w)
      else if listed w n
      then (known, w)
      else (new_view, n ∷ w);
}

abbrev has_view : Bytes → List Bytes → Bool
has_view n w = listed w n

sample_gui-Documented :
    (n : Bytes) (r : Corners) (w : List Bytes)
    → Documented sample_gui has_view n w (sample_gui.set_view n r w)
unfolding listed
sample_gui-Documented n r w =
    if_elim (Documented sample_gui has_view n w) (not (before r.x0 r.x1 && before r.y0 r.y1)) _ _
      (λ _ m. refl)
      (λ _.
        if_elim (Documented sample_gui has_view n w) (listed w n) _ _ (λ e. (e, λ m. refl))
          (λ e. (e, λ m. refl)))

-- The window is resized, and then made too small.
lay_outs_once_example :
    let (s, fine) = lay_outs sample_gui ((80, 24) ∷ (100, 40) ∷ (10, 10) ∷ []) (no_panels []) in
    (times (name_of logs) s.set_up ≤ 1)
    × (fine ≡ true → times (name_of logs) s.set_up ≡ 1)
    × (times (name_of logs) (goroutines s.set_up) ≡ times (name_of logs) s.set_up)
lay_outs_once_example =
    lay_outs_once sample_gui has_view sample_gui-Documented (80, 24) ((100, 40) ∷ (10, 10) ∷ []) []
      logs (λ n. unfold listed in refl)
