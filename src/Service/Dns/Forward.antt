-- ===== src/Service/Dns/Forward.antt =====
-- Which answer `forwardDNS` gives.
use cisco_socks_server.Prelude.{
  false, List, [], ◌∷◌, ◌++◌, none, some, Bytes, ◌≡◌, refl, ◌↔◌, arith, All, Option-cases, inl, inr,
  subst, some_inj,
}
use cisco_socks_server.Service.Dns.{DnsLib, without_opt, request, answer, try_servers, forward_dns}

module _ (lib : DnsLib) where
  open lib use {Msg, Rr, is_edns0, exchange, extra, set_extra, is_opt}

  without_opt-All : (rs : List Rr) → All (λ r. is_opt r ≡ false) (without_opt lib rs)
  unfolding without_opt
  without_opt-All [] = tt
  without_opt-All (r ∷ rs) = ground (arith, without_opt-All rs)

  -- The answer is that of the first server that answers the request, behind servers that do not.
  pub forward_dns_first :
      (failing rest : List Bytes) (server : Bytes) (r resp : Msg)
      → All (λ s. exchange (request lib r) s ≡ none) failing
      → exchange (request lib r) server ≡ some resp
      → forward_dns lib (failing ++ (server ∷ rest)) r ≡ some (answer lib r resp)
  unfolding forward_dns
  forward_dns_first [] rest server r resp down up = rw (up, try_servers)
  forward_dns_first (s ∷ failing) rest server r resp down up =
      rw (down.0, try_servers) (forward_dns_first failing rest server r resp down.1 up)

  -- It fails exactly when every server does.
  pub forward_dns_fails_iff :
      (servers : List Bytes) (r : Msg)
      → (forward_dns lib servers r ≡ none) ↔ All (λ s. exchange (request lib r) s ≡ none) servers
  unfolding forward_dns
  forward_dns_fails_iff [] r = (λ _. tt, λ _. refl)
  forward_dns_fails_iff (s ∷ servers) r = elim (Option-cases (exchange (request lib r) s)) [
    | inl e ↦ (
      λ h. (e, (forward_dns_fails_iff servers r).0 (rw (e, try_servers) at h)),
      λ h. rw (e, try_servers) ((forward_dns_fails_iff servers r).1 h.1),
    )
    | inr (resp, e) ↦ (
      λ h. absurd (ground (arith, rw (e, try_servers) at h)),
      λ h. absurd (ground (arith, e, h.0)),
    )
  ]

  answer_no_opt :
      (r m : Msg)
      → ((rs : List Rr) (m : Msg) → extra (set_extra rs m) ≡ rs)
      → is_edns0 r ≡ false
      → All (λ rr. is_opt rr ≡ false) (extra (answer lib r m))
  unfolding answer
  answer_no_opt r m sets plain = rw (plain, sets) (without_opt-All (extra m))

  -- A client that sent no EDNS0 gets no OPT record, where setting the extra section sets it.
  pub forward_dns_no_opt :
      (servers : List Bytes) (r resp : Msg)
      → ((rs : List Rr) (m : Msg) → extra (set_extra rs m) ≡ rs)
      → is_edns0 r ≡ false
      → forward_dns lib servers r ≡ some resp
      → All (λ rr. is_opt rr ≡ false) (extra resp)
  unfolding forward_dns
  forward_dns_no_opt [] r resp sets plain h = absurd (cc)
  forward_dns_no_opt (s ∷ servers) r resp sets plain h =
      elim (Option-cases (exchange (request lib r) s)) [
        | inl e ↦ forward_dns_no_opt servers r resp sets plain (rw (e, try_servers) at h)
        | inr (m, e) ↦
            subst (λ x. All (λ rr. is_opt rr ≡ false) (extra x))
              (some_inj (rw (e, try_servers) at h)) (answer_no_opt r m sets plain)
      ]
