-- ===== src/Service/Dns/Handler.antt =====
-- The reply to a query.
use cisco_socks_server.Prelude.{
  List, [], ◌∷◌, ◌++◌, none, some, Bytes, ◌≡◌, refl, ◌⊎◌, inl, inr, All, Option-cases,
}
use cisco_socks_server.Service.Dns.{DnsLib, request, answer, handle_query}
use cisco_socks_server.Service.Dns.Forward.{forward_dns_first, forward_dns_fails_iff}

module _ (lib : DnsLib) where
  open lib use {Msg, exchange, servfail}

  -- The servers up to the first one that answers.
  abbrev pub FirstAnswer : Msg → List Bytes → Msg → Type 0
  FirstAnswer r servers resp =
      (failing : List Bytes) × (server : Bytes) × (rest : List Bytes) × (servers
        ≡ failing ++ (server ∷ rest))
      × All (λ s. exchange (request lib r) s ≡ none) failing
      × (exchange (request lib r) server ≡ some resp)

  first_answer :
      (r : Msg) (servers : List Bytes)
      → All (λ s. exchange (request lib r) s ≡ none) servers
        ⊎ ((resp : Msg) × FirstAnswer r servers resp)
  first_answer r [] = inl tt
  first_answer r (server ∷ servers) = elim (Option-cases (exchange (request lib r) server)) [
    | inr (resp, e) ↦ inr (resp, ([], server, servers, refl, tt, e))
    | inl e ↦ add_failing e (first_answer r servers)
  ]
    where
      add_failing :
          exchange (request lib r) server ≡ none
          → All (λ s. exchange (request lib r) s ≡ none) servers
            ⊎ ((resp : Msg) × FirstAnswer r servers resp)
          → All (λ s. exchange (request lib r) s ≡ none) (server ∷ servers)
            ⊎ ((resp : Msg) × FirstAnswer r (server ∷ servers) resp)
      add_failing e (inl all) = inl (e, all)
      add_failing e (inr (resp, (failing, s, rest, split, all, found))) =
          inr (resp, (server ∷ failing, s, rest, cc, (e, all), found))

  -- Every query gets a reply: that of the first server that answers, or the failure code when
  -- none does.
  pub handle_query_replies :
      (servers : List Bytes) (r : Msg)
      → (All (λ s. exchange (request lib r) s ≡ none) servers
          × (handle_query lib servers r ≡ servfail r))
        ⊎ ((resp : Msg) × FirstAnswer r servers resp
            × (handle_query lib servers r ≡ answer lib r resp))
  unfolding handle_query
  handle_query_replies servers r = elim (first_answer r servers) [
    | inl all ↦ inl (all, rw ((forward_dns_fails_iff lib servers r).1 all))
    | inr (resp, (failing, server, rest, split, all, found)) ↦ inr (
      resp,
      (failing, server, rest, split, all, found),
      rw (split, forward_dns_first lib failing rest server r resp all found),
    )
  ]
