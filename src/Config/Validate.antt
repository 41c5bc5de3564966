-- ===== src/Config/Validate.antt =====
-- What a configuration that passes `validate` guarantees.
use cisco_socks_server.Prelude.{
  ℕ, ◌+◌, ◌/◌, ◌^◌, Bool, true, false, ◌&&◌, keep_if, ◌>>=◌, some_inj, All-map, Option, sym, subst,
  ◌∙◌, ◌⊎◌, inl, inr, Bool-cases, Option-cases, List, [], ◌∷◌, none, some, Bytes, is_empty, is_some,
  ◌≡◌, ◌≢◌, refl, ◌↔◌, arith, All,
}
use cisco_socks_server.Net.Addr.{Addr, no_addr, v4, v6, V6Text, parse_addr}
use cisco_socks_server.Net.Mac.{parse_mac}
use cisco_socks_server.Service.State.{LanClient, discovery_enabled}
use cisco_socks_server.Service.Gate.{credentials}
use cisco_socks_server.Config.{
  Config, no_zone, has_to4, parse_ip, check_dns, good_client_ip, good_client_mac, check_clients,
  validate, service_options,
}

-- An address without a zone.
abbrev pub IsPlain : Addr → Type 0
IsPlain no_addr = ⊥
IsPlain (v4 a) = Unit
IsPlain (v6 a z) = z ≡ []

-- An IPv4 address, or one mapped into IPv6, without a zone.
abbrev pub IsIpv4 : Addr → Type 0
IsIpv4 no_addr = ⊥
IsIpv4 (v4 a) = Unit
IsIpv4 (v6 a z) = (a / 2 ^ 32 ≡ 0xffff) × (z ≡ [])

is_empty_iff : (s : Bytes) → (is_empty s ≡ true) ↔ (s ≡ [])
is_empty_iff [] = (λ h. refl, λ h. refl)
is_empty_iff (c ∷ s) = (λ h. absurd (ground (arith, h)), λ h. absurd (ground (arith, h)))

is_empty-same : (s t : Bytes) → (is_empty s ≡ is_empty t) ↔ ((s ≡ []) ↔ (t ≡ []))
is_empty-same s t = (
  λ h. (
    λ e. (is_empty_iff t).0 (sym h ∙ (is_empty_iff s).1 e),
    λ e. (is_empty_iff s).0 (h ∙ (is_empty_iff t).1 e),
  ),
  λ h. elim (Bool-cases (is_empty s)) [
    | inl e ↦ e ∙ sym ((is_empty_iff t).1 (h.0 ((is_empty_iff s).0 e)))
    | inr e ↦ elim (Bool-cases (is_empty t)) [
      | inl f ↦ absurd (cc (e, (is_empty_iff s).1 (h.1 ((is_empty_iff t).0 f))))
      | inr f ↦ e ∙ sym f
    ]
  ],
)

no_zone_iff : (a : Addr) → (no_zone a ≡ true) ↔ IsPlain a
unfolding no_zone
no_zone_iff no_addr = (λ h. absurd (ground (arith, h)), λ h. absurd h)
no_zone_iff (v4 a) = (λ h. tt, λ h. refl)
no_zone_iff (v6 a z) = is_empty_iff z

IsIpv4-iff : (a : Addr) → (no_zone a && has_to4 a ≡ true) ↔ IsIpv4 a
unfolding no_zone has_to4
IsIpv4-iff no_addr = (λ h. absurd (ground (arith, h)), λ h. absurd h)
IsIpv4-iff (v4 a) = (λ h. tt, λ h. refl)
IsIpv4-iff (v6 a z) = (
  λ h. (ground (arith, h), (is_empty_iff z).0 (ground (arith, h))),
  λ h. ground (arith, h.0, (is_empty_iff z).1 h.1),
)

is_some_iff {ℓ} : {A : Type ℓ} (o : Option A) → (is_some o ≡ true) ↔ ((a : A) × (o ≡ some a))
is_some_iff none = (λ h. absurd (ground (arith, h)), λ (a, e). absurd (ground (arith, e)))
is_some_iff (some a) = (λ h. (a, refl), λ h. refl)

is_some-keep_if {ℓ} : {A : Type ℓ} (b : Bool) (a : A) → is_some (keep_if b a) ≡ b
is_some-keep_if true a = refl
is_some-keep_if false a = refl

module _ ⦃t : V6Text⦄ where
  -- The text of an IP address without a zone.
  abbrev pub IsServer : Bytes → Type 0
  IsServer s = (a : Addr) × (parse_addr s ≡ some a) × IsPlain a

  -- A client with the text of an IPv4 address, and a hardware address or none.
  abbrev pub IsGoodClient : LanClient → Type 0
  IsGoodClient lc =
      ((a : Addr) × (parse_addr lc.ip ≡ some a) × IsIpv4 a)
      × ((lc.mac ≡ []) ⊎ ((hw : List ℕ) × (parse_mac lc.mac ≡ some hw)))

  -- A configuration that the service can run on.
  pub record IsComplete (c : Config) : Type 0 where
    pub user : c.cisco_user ≢ []
    pub password : c.cisco_password ≢ []
    pub profile : c.cisco_profile ≢ []
    pub dns : c.dns_servers ≢ []
    pub dns_good : All IsServer c.dns_servers
    pub clients_good : All IsGoodClient c.lan_clients
    pub both : (c.socks_user ≡ []) ↔ (c.socks_password ≡ [])

  IsServer-iff : (s : Bytes) → (is_some (parse_ip s) ≡ true) ↔ IsServer s
  unfolding parse_ip
  IsServer-iff s = elim (Option-cases (parse_addr s)) [
    | inl e ↦ (λ h. absurd (ground (arith, e, h)), λ (a, f, _). absurd (ground (arith, e, f)))
    | inr (a, e) ↦ (
      λ h. (
        a,
        e,
        (no_zone_iff a).0 (sym (is_some-keep_if (no_zone a) a) ∙ (rw (e, parse_ip, ◌>>=◌) at h)),
      ),
      λ (b, f, plain).
          rw (e, ◌>>=◌)
            (is_some-keep_if (no_zone a) a
              ∙ (no_zone_iff a).1 (subst IsPlain (some_inj (sym f ∙ e)) plain)),
    )
  ]

  client_ip_iff :
      (s : Bytes) → (good_client_ip s ≡ true) ↔ ((a : Addr) × (parse_addr s ≡ some a) × IsIpv4 a)
  unfolding good_client_ip parse_ip
  client_ip_iff s = elim (Option-cases (parse_addr s)) [
    | inl e ↦ (λ h. absurd (ground (arith, e, h)), λ (a, f, _). absurd (ground (arith, e, f)))
    | inr (a, e) ↦ (
      λ h. (a, e, (IsIpv4-iff a).0 (ground (arith, e, h))),
      λ (b, f, ok). ground (arith, e, (IsIpv4-iff a).1 (subst IsIpv4 (some_inj (sym f ∙ e)) ok)),
    )
  ]

  client_mac_iff :
      (mac : Bytes)
      → (good_client_mac mac ≡ true) ↔ ((mac ≡ []) ⊎ ((hw : List ℕ) × (parse_mac mac ≡ some hw)))
  unfolding good_client_mac
  client_mac_iff mac = elim (Bool-cases (is_empty mac)) [
    | inl e ↦ (λ h. inl ((is_empty_iff mac).0 e), λ h. rw e refl)
    | inr e ↦ (
      λ h. inr ((is_some_iff (parse_mac mac)).0 (ground (arith, e, h))),
      λ h. elim h [
        | inl f ↦ absurd (cc (e, (is_empty_iff mac).1 f))
        | inr ok ↦ rw e ((is_some_iff (parse_mac mac)).1 ok)
      ],
    )
  ]

  abbrev PassesServer : Bytes → Type 0
  PassesServer s = is_some (parse_ip s) ≡ true

  abbrev PassesClient : LanClient → Type 0
  PassesClient lc = (good_client_ip lc.ip ≡ true) × (good_client_mac lc.mac ≡ true)

  -- What the tests of `validate` say.
  record Passes (c : Config) : Type 0 where
    user : c.cisco_user ≢ []
    password : c.cisco_password ≢ []
    profile : c.cisco_profile ≢ []
    dns : c.dns_servers ≢ []
    dns_good : All PassesServer c.dns_servers
    clients_good : All PassesClient c.lan_clients
    both : is_empty c.socks_user ≡ is_empty c.socks_password

  check_dns_iff : (i : ℕ) (ss : List Bytes) → (check_dns i ss ≡ none) ↔ All PassesServer ss
  unfolding check_dns
  check_dns_iff i [] = (λ _. tt, λ _. refl)
  check_dns_iff i (s ∷ ss) =
      (λ h. ground (arith, check_dns_iff (i + 1) ss), λ h. ground (arith, check_dns_iff (i + 1) ss))

  check_clients_iff :
      (i : ℕ) (lcs : List LanClient) → (check_clients i lcs ≡ none) ↔ All PassesClient lcs
  unfolding check_clients
  check_clients_iff i [] = (λ _. tt, λ _. refl)
  check_clients_iff i (lc ∷ lcs) = (
    λ h. ground (arith, check_clients_iff (i + 1) lcs),
    λ h. ground (arith, check_clients_iff (i + 1) lcs),
  )

  validate-Passes : (c : Config) → (validate c ≡ none) ↔ Passes c
  unfolding validate
  validate-Passes c = (
    λ h. record {
      user = ground arith;
      password = ground arith;
      profile = ground arith;
      dns = ground arith;
      dns_good = (check_dns_iff 0 c.dns_servers).0 (ground arith);
      clients_good = (check_clients_iff 0 c.lan_clients).0 (ground arith);
      both = ground arith;
    },
    λ v. ground (
      arith,
      (check_dns_iff 0 c.dns_servers).1 v.dns_good,
      (check_clients_iff 0 c.lan_clients).1 v.clients_good,
    ),
  )

  good_client : (lc : LanClient) → PassesClient lc ↔ IsGoodClient lc
  good_client lc = (
    λ h. ((client_ip_iff lc.ip).0 h.0, (client_mac_iff lc.mac).0 h.1),
    λ h. ((client_ip_iff lc.ip).1 h.0, (client_mac_iff lc.mac).1 h.1),
  )

  -- `validate` accepts exactly the configurations with a name, a password and a profile, with DNS
  -- servers that are IP addresses without a zone, with clients that have an IPv4 address, as such or
  -- mapped into IPv6, and a hardware address or none, and with both SOCKS credentials or neither.
  pub validate_iff : (c : Config) → (validate c ≡ none) ↔ IsComplete c
  validate_iff c = (
    λ h.
        let v = (validate-Passes c).0 h in
        record {
          user = v.user;
          password = v.password;
          profile = v.profile;
          dns = v.dns;
          dns_good = All-map (λ s. (IsServer-iff s).0) c.dns_servers v.dns_good;
          clients_good = All-map (λ lc. (good_client lc).0) c.lan_clients v.clients_good;
          both = (is_empty-same c.socks_user c.socks_password).0 v.both;
        },
    λ v. (validate-Passes c).1 (record {
      user = v.user;
      password = v.password;
      profile = v.profile;
      dns = v.dns;
      dns_good = All-map (λ s. (IsServer-iff s).1) c.dns_servers v.dns_good;
      clients_good = All-map (λ lc. (good_client lc).1) c.lan_clients v.clients_good;
      both = (is_empty-same c.socks_user c.socks_password).1 v.both;
    }),
  )

  -- With a configuration that passes `validate`, clients of the LAN are discovered without being
  -- asked for a name and a password that is not empty only where `lan_discovery` says so, and the
  -- loopback listener never asks for them.
  pub validate-credentials :
      (c : Config)
      → validate c ≡ none
      → c.lan_discovery ≡ false
      → discovery_enabled (service_options c) ≡ true
      → (credentials (service_options c) true ≡ some (c.socks_user, c.socks_password))
        × (c.socks_user ≢ [])
        × (c.socks_password ≢ [])
        × (credentials (service_options c) false ≡ none)
  unfolding discovery_enabled credentials service_options
  validate-credentials c ok closed on =
      let both = ((validate-Passes c).0 ok).both in (ground arith, ground arith, ground arith, refl)
