-- ===== src/Main.antt =====
-- cmd/main.go: `run` and `main`.
pub mod Outcome
use cisco_socks_server.Prelude.{ℕ, Bool, true, false, not, Option, none, some, if◌then◌else◌}
use cisco_socks_server.Config.{Config}
use cisco_socks_server.Config.Load.{LoadError, Loaded, loaded, not_loaded, ended}

-- The errors of `run`: of the configuration, of the service and of the terminal interface, each
-- with the error that it wraps.
pub data RunError {ℓ} (E : Type ℓ) : Type ℓ where
  load_failed : LoadError → RunError E
  service_failed tui_failed : E → RunError E

-- Where the log goes: to stdout, or to the terminal interface.
pub data Sink : Type 0 where
  to_stdout to_tui : Sink

-- The levels that `run` asks for.
pub data MinLevel : Type 0 where
  info debug : MinLevel

-- What `run` leaves: its result, if the log is set up where it goes and its level, and whether the
-- context is cancelled, which restores the terminal; and the code, if the process ends in it.
pub record RunEnd {ℓ} (E : Type ℓ) : Type ℓ where
  pub result : Option (RunError E)
  pub log : Option (Sink × MinLevel)
  pub cancelled : Bool
  pub ended_with : Option ℕ

-- What the terminal interface returns; without it the channel holds no error.
abbrev tui_result {ℓ} : {E : Type ℓ} → Bool → Option E → Option E
tui_result no_tui tui = if no_tui then none else tui

abbrev run_result {ℓ} : {E : Type ℓ} → Option E → Option E → Option (RunError E)
run_result (some e) terr = some (service_failed e)
run_result none (some e) = some (tui_failed e)
run_result none none = none

-- `run`, by what `loadConfig`, `Start` and `CreateTUI` return.
unfoldable pub run {ℓ} : {E : Type ℓ} → Loaded → (Config → Option E) → Option E → RunEnd E
run (not_loaded e) started tui = record {
  result = some (load_failed e);
  log = none;
  cancelled = false;
  ended_with = none;
}
run (ended code) started tui = record {
  result = none;
  log = none;
  cancelled = false;
  ended_with = some code;
}
run (loaded cfg) started tui = record {
  result = run_result (started cfg) (tui_result cfg.no_tui tui);
  log = some (to_stdout, if cfg.debug then debug else info);
  cancelled = true;
  ended_with = none;
}

-- `main`: the code that the process exits with.
unfoldable pub exit_code {ℓ} : {E : Type ℓ} → RunEnd E → ℕ
exit_code end = elim end.ended_with [
  | some code ↦ code
  | none ↦ elim end.result [ none ↦ 0 | some e ↦ 1 ]
]
