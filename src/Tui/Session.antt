-- ===== src/Tui/Session.antt =====
-- internal/utils/tui/tui.go: `CreateTUI`, from the redirection of stdout and stderr to its deferred
-- calls. What the operating system and the gocui library answer is an input.
use cisco_socks_server.Prelude.{Bool, true, false, not, Option, none, some, if◌then◌else◌}

-- Where stdout and stderr go.
pub data Output : Type 0 where
  terminal dev_null : Output

-- The files of the process, whether the library owns the screen, and whether the goroutines of the
-- views have been told to end.
pub record Screen : Type 0 where
  pub stdout : Output
  pub stderr : Output
  pub drawn : Bool
  pub done : Bool

-- The errors of `CreateTUI`.
pub data TuiError : Type 0 where
  no_dev_null no_gui no_keys loop_failed : TuiError

-- How `MainLoop` ends: by `ErrQuit` (Ctrl+C, or the context is done) or without an error, or by
-- another error.
pub data LoopEnd : Type 0 where
  quits fails : LoopEnd

pub record TuiInput : Type 0 where
  pub opens_null : Bool
  pub opens_gui : Bool
  pub binds_keys : Bool
  pub loop : LoopEnd

abbrev redirect : Output → Output → Screen → Screen
redirect out err s = record s { stdout = out; stderr = err }

-- The part behind `NewGui`, with the first deferred calls; it is run on the screen of the library.
unfoldable pub run_gui : TuiInput → Screen → Screen × Option TuiError
run_gui inp s =
    let closed = record s { drawn = false; done = true } in
    (
      closed,
      if not inp.binds_keys
          then some no_keys
          else elim inp.loop [ quits ↦ none | fails ↦ some loop_failed ],
    )

-- The part behind the redirection.
unfoldable pub with_gui : TuiInput → Screen → Screen × Option TuiError
with_gui inp s =
    if not inp.opens_gui then (s, some no_gui) else run_gui inp (record s { drawn = true })

-- `CreateTUI`
unfoldable pub create_tui : TuiInput → Screen → Screen × Option TuiError
create_tui inp s =
    if not inp.opens_null
    then (s, some no_dev_null)
    else let (s', e) = with_gui inp (redirect dev_null dev_null s) in
      (redirect s.stdout s.stderr s', e)
