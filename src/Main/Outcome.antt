-- ===== src/Main/Outcome.antt =====
-- When the process succeeds.
use cisco_socks_server.Prelude.{
  ap, inl, inr, some, false, true, Option, none, ◌≡◌, refl, ◌↔◌, ◌⊎◌, arith,
}
use cisco_socks_server.Config.{Config}
use cisco_socks_server.Config.Load.{
  Loaded, loaded, not_loaded, ended, asked_help, load_config-ended,
}
use cisco_socks_server.Net.Addr.{V6Text}
use cisco_socks_server.Config.Load.{Environment, load_config, IsRead, load_config_iff}
use cisco_socks_server.Config.Validate.{IsComplete}
use cisco_socks_server.Tui.Session.{Screen, TuiInput, TuiError, quits, create_tui}
use cisco_socks_server.Tui.Restore.{create_tui_restores}
use cisco_socks_server.Main.{run, exit_code}

-- The process succeeds exactly when it ends so in `loadConfig`, or the configuration is loaded, the service returns without an
-- error, and so does the terminal interface, if there is one.
pub exit_code_iff {ℓ} :
    {E : Type ℓ} (load : Loaded) (started : Config → Option E) (tui : Option E)
    → (exit_code (run load started tui) ≡ 0) ↔ (
        (load ≡ ended 0)
        ⊎ ((cfg : Config) × (load ≡ loaded cfg)
            × (started cfg ≡ none)
            × ((cfg.no_tui ≡ true) ⊎ (tui ≡ none))))
unfolding run exit_code
exit_code_iff (not_loaded e) started tui =
    (λ h. absurd (omega (arith, h)), λ h. elim h [ inl e ↦ cc | inr (cfg, e, _, _) ↦ cc ])
exit_code_iff (ended code) started tui =
    (λ h. inl (ap ended h), λ h. elim h [ inl e ↦ cc e | inr (cfg, e, _, _) ↦ cc ])
exit_code_iff (loaded cfg) started tui = (
  λ h. inr (cfg, refl, ground arith, ground arith),
  λ h. elim h [ inl e ↦ cc | inr (c, same, ok, quiet) ↦ ground arith ],
)

-- The result of `CreateTUI` as an error of the process.
abbrev pub as_error {ℓ} : {E : Type ℓ} → (TuiError → E) → Option TuiError → Option E
as_error embed none = none
as_error embed (some e) = some (embed e)

as_error-none {ℓ} :
    {E : Type ℓ} (embed : TuiError → E) (o : Option TuiError)
    → (as_error embed o ≡ none) ↔ (o ≡ none)
as_error-none embed none = (λ h. refl, λ h. refl)
as_error-none embed (some e) = (λ h. cc, λ h. cc)

-- The process exits with 0 exactly when it was asked for its flags, or the file of the user says a
-- complete configuration, the service returns without an error, and the terminal interface is
-- turned off, or can be set up and is quit.
pub process_succeeds_iff {ℓ} :
    {E : Type ℓ} ⦃t : V6Text⦄ (env : Environment) (started : Config → Option E)
    (embed : TuiError → E) (inp : TuiInput) (s : Screen)
    → s.drawn ≡ false
    → (exit_code (run (load_config env) started (as_error embed (create_tui inp s).1)) ≡ 0) ↔ (
        (env.flags ≡ asked_help)
        ⊎ ((cfg : Config) × (IsRead env cfg × IsComplete cfg)
            × (started cfg ≡ none)
            × ((cfg.no_tui ≡ true)
                ⊎ ((inp.opens_null ≡ true)
                    × (inp.opens_gui ≡ true)
                    × (inp.binds_keys ≡ true)
                    × (inp.loop ≡ quits)))))
process_succeeds_iff env started embed inp s free =
    let tui = (create_tui inp s).1 in
    let (_, _, _, ends) = create_tui_restores inp s free in
    let quiet = as_error-none embed tui in
    let outcome = exit_code_iff (load_config env) started (as_error embed tui) in
    (
      λ h. elim (outcome.0 h) [
        | inl over ↦ inl ((load_config-ended env).0 over)
        | inr (cfg, load, ok, ui) ↦ inr (
          cfg,
          (load_config_iff env cfg).0 load,
          ok,
          elim ui [ inl off ↦ inl off | inr none_left ↦ inr (ends.0 (quiet.0 none_left)) ],
        )
      ],
      λ h. outcome.1 (elim h [
        | inl asked ↦ inl ((load_config-ended env).1 asked)
        | inr (cfg, read, ok, ui) ↦ inr (
          cfg,
          (load_config_iff env cfg).1 read,
          ok,
          elim ui [ inl off ↦ inl off | inr up ↦ inr (quiet.1 (ends.1 up)) ],
        )
      ]),
    )
