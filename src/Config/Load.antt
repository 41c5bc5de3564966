-- ===== src/Config/Load.antt =====
-- cmd/config.go: `loadConfig`. The environment, the users, the files and the YAML are parameters.
use cisco_socks_server.Prelude.{
  ℕ, Bool, [], ◌∷◌, arith, some_inj, ◌≢◌, Option, none, some, Bytes, if◌then◌else◌, is_empty, ◌≡◌,
  refl, ◌↔◌, subst, sym, ap,
}
use cisco_socks_server.Net.Addr.{V6Text}
use cisco_socks_server.Config.{Config, ConfigError, validate}
use cisco_socks_server.Config.Validate.{IsComplete, validate_iff}

-- The errors of `loadConfig`.
pub data LoadError : Type 0 where
  no_sudo_user no_such_user no_file no_yaml : LoadError
  invalid : ConfigError → LoadError

-- A configuration, an error, or the end of the process with a code, by `flag.Parse`.
pub data Loaded : Type 0 where
  loaded : Config → Loaded
  not_loaded : LoadError → Loaded
  ended : ℕ → Loaded

-- What `flag.Parse` makes of the command line: the two flags, or a message behind which the process
-- ends, with 0 if it was asked for and with 2 if a flag is bad.
pub data Flags : Type 0 where
  parsed : (no_tui debug : Bool) → Flags
  asked_help bad_flag : Flags

-- What the program is started with: the flags, the value of `SUDO_USER`, the home directories of
-- the users, the file `.cisco-socks5.yaml` in a directory, and what the YAML of a file sets in a
-- configuration.
pub record Environment : Type 0 where
  pub flags : Flags
  pub sudo_user : Option Bytes
  pub home_of : Bytes → Option Bytes
  pub file_in : Bytes → Option Bytes
  pub unmarshal : Bytes → Option Config

-- The YAML has no key for the flags.
abbrev pub with_flags : Bool → Bool → Config → Config
with_flags no_tui debug c = record c { no_tui = no_tui; debug = debug }

abbrev or_end : Flags → (Bool → Bool → Loaded) → Loaded
or_end (parsed no_tui debug) f = f no_tui debug
or_end asked_help f = ended 0
or_end bad_flag f = ended 2

abbrev or_fail {ℓ} : {A : Type ℓ} → LoadError → Option A → (A → Loaded) → Loaded
or_fail e none f = not_loaded e
or_fail e (some a) f = f a

abbrev checked : Config → Option ConfigError → Loaded
checked c none = loaded c
checked c (some e) = not_loaded (invalid e)

abbrev user_name : Option Bytes → Option Bytes
user_name none = none
user_name (some name) = if is_empty name then none else some name

user_name_iff : (o : Option Bytes) (n : Bytes) → (user_name o ≡ some n) ↔ ((o ≡ some n) × (n ≢ []))
user_name_iff none n = (λ h. absurd (ground (arith, h)), λ h. absurd (ground (arith, h.0)))
user_name_iff (some []) n =
    (λ h. absurd (ground (arith, h)), λ h. absurd (h.1 (sym (some_inj h.0))))
user_name_iff (some (c ∷ s)) n = (λ h. (h, λ e. ground (arith, some_inj h, e)), λ h. h.0)

ended_inj : {m n : ℕ} → ended m ≡ ended n → m ≡ n
ended_inj h = cc

two : (n : ℕ) → n ≡ 2 → n ≢ 0
two n e = λ h. absurd (omega (arith, e, h))

module _ ⦃t : V6Text⦄ where
  -- The part behind `flag.Parse`.
  unfoldable pub load_with : Environment → Bool → Bool → Loaded
  load_with env no_tui debug = or_fail no_sudo_user (user_name env.sudo_user) λ name.
      or_fail no_such_user (env.home_of name) λ home. or_fail no_file (env.file_in home) λ text.
        or_fail no_yaml (env.unmarshal text)
          λ c. checked (with_flags no_tui debug c) (validate (with_flags no_tui debug c))

  -- `loadConfig`
  unfoldable pub load_config : Environment → Loaded
  load_config env = or_end env.flags (load_with env)

  -- How the configuration comes to be: the flags are good, and the file of a user that is known sets
  -- it, apart from the flags.
  abbrev pub IsRead : Environment → Config → Type 0
  IsRead env c =
      (no_tui : Bool) × (debug : Bool) × (name : Bytes) × (home : Bytes) × (text : Bytes)
      × (set : Config) × (env.flags ≡ parsed no_tui debug)
      × ((env.sudo_user ≡ some name) × (name ≢ []))
      × (env.home_of name ≡ some home)
      × (env.file_in home ≡ some text)
      × (env.unmarshal text ≡ some set)
      × (c ≡ record {
        cisco_user = set.cisco_user;
        cisco_password = set.cisco_password;
        cisco_profile = set.cisco_profile;
        socks_user = set.socks_user;
        socks_password = set.socks_password;
        dns_servers = set.dns_servers;
        lan_clients = set.lan_clients;
        lan_discovery = set.lan_discovery;
        no_tui = no_tui;
        debug = debug;
      })

  or_fail-loaded {ℓ} :
      {A : Type ℓ} (e : LoadError) (o : Option A) (f : A → Loaded) {c : Config}
      → or_fail e o f ≡ loaded c
      → (a : A) × (o ≡ some a) × (f a ≡ loaded c)
  or_fail-loaded e none f h = cc
  or_fail-loaded e (some a) f h = (a, refl, h)

  or_end-loaded :
      (fl : Flags) (f : Bool → Bool → Loaded) {c : Config}
      → or_end fl f ≡ loaded c
      → (no_tui : Bool) × (debug : Bool) × (fl ≡ parsed no_tui debug) × (f no_tui debug ≡ loaded c)
  or_end-loaded (parsed no_tui debug) f h = (no_tui, debug, refl, h)
  or_end-loaded asked_help f h = cc
  or_end-loaded bad_flag f h = cc

  checked-loaded :
      (c : Config) (o : Option ConfigError) {d : Config}
      → checked c o ≡ loaded d
      → (o ≡ none) × (d ≡ c)
  checked-loaded c none h = (refl, cc)
  checked-loaded c (some e) h = cc

  load_config_sound :
      (env : Environment) {c : Config} → load_config env ≡ loaded c → IsRead env c × IsComplete c
  unfolding load_config load_with
  load_config_sound env {c} h =
      let (no_tui, debug, ef, h0) = or_end-loaded env.flags (load_with env) h in
      let (name, en, h1) = or_fail-loaded no_sudo_user (user_name env.sudo_user) _ h0 in
      let (home, eh, h2) = or_fail-loaded no_such_user (env.home_of name) _ h1 in
      let (text, et, h3) = or_fail-loaded no_file (env.file_in home) _ h2 in
      let (set, es, h4) = or_fail-loaded no_yaml (env.unmarshal text) _ h3 in
      let (ok, same) = checked-loaded (with_flags no_tui debug set) _ h4 in
      (
        (
          no_tui,
          debug,
          name,
          home,
          text,
          set,
          ef,
          (user_name_iff env.sudo_user name).0 en,
          eh,
          et,
          es,
          same,
        ),
        subst IsComplete (sym same) ((validate_iff (with_flags no_tui debug set)).0 ok),
      )

  load_config_complete :
      (env : Environment) (c : Config) → IsRead env c → IsComplete c → load_config env ≡ loaded c
  unfolding load_config load_with
  load_config_complete env c (no_tui, debug, name, home, text, set, ef, named, eh, et, es, same)
        complete =
      let ok = (validate_iff (with_flags no_tui debug set)).1 (subst IsComplete same complete) in
      let en = (user_name_iff env.sudo_user name).1 named in
      rw (ef, or_end, en, or_fail, eh, or_fail, et, or_fail, es, or_fail, ok, checked)
        (ap loaded (sym same))

  -- `loadConfig` returns a configuration exactly when the flags are good, `SUDO_USER` is set and not
  -- empty, the user and the file are there and the YAML is good, the configuration is what the YAML
  -- sets, with `no-tui` and `debug` from the command line, and it is complete.
  pub load_config_iff :
      (env : Environment) (c : Config)
      → (load_config env ≡ loaded c) ↔ (IsRead env c × IsComplete c)
  load_config_iff env c =
      (λ h. load_config_sound env h, λ (read, complete). load_config_complete env c read complete)

  or_fail-ended {ℓ} :
      {A : Type ℓ} (e : LoadError) (o : Option A) (f : A → Loaded) {n : ℕ}
      → ((a : A) → f a ≢ ended n)
      → or_fail e o f ≢ ended n
  or_fail-ended e none f h = λ e. cc
  or_fail-ended e (some a) f h = h a

  checked-ended : (c : Config) (o : Option ConfigError) {n : ℕ} → checked c o ≢ ended n
  checked-ended c none = λ e. cc
  checked-ended c (some x) = λ e. cc

  load_with-ended : (env : Environment) (a b : Bool) {n : ℕ} → load_with env a b ≢ ended n
  unfolding load_with
  load_with-ended env a b = or_fail-ended no_sudo_user (user_name env.sudo_user) _ λ name.
      or_fail-ended no_such_user (env.home_of name) _ λ home.
        or_fail-ended no_file (env.file_in home) _
          λ text. or_fail-ended no_yaml (env.unmarshal text) _ λ c. checked-ended _ _

  or_end-ended :
      (fl : Flags) (f : Bool → Bool → Loaded)
      → ((a b : Bool) → f a b ≢ ended 0)
      → (or_end fl f ≡ ended 0) ↔ (fl ≡ asked_help)
  or_end-ended (parsed a b) f h = (λ e. absurd (h a b e), λ e. cc)
  or_end-ended asked_help f h = (λ e. refl, λ e. refl)
  or_end-ended bad_flag f h = (λ e. absurd (two 2 refl (ended_inj e)), λ e. cc)

  -- The process ends well in `loadConfig` exactly when it was asked for its flags.
  pub load_config-ended :
      (env : Environment) → (load_config env ≡ ended 0) ↔ (env.flags ≡ asked_help)
  unfolding load_config
  load_config-ended env = or_end-ended env.flags (load_with env) (λ a b. load_with-ended env a b)
