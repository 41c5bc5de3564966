-- ===== src/Service/Pinner/Self.antt =====
-- The clients of the configuration that hold our own address.
use cisco_socks_server.Prelude.{
  true, List, [], ◌∷◌, Bytes, ◌≡◌, ◌↔◌, sym, ◌∙◌, arith, str_eq, str_eq_iff, listed, Bool-cases,
  inl, inr,
}
use cisco_socks_server.Net.Addr.{Addr, V6Text, print_addr}
use cisco_socks_server.Service.State.{State, LanClient}
use cisco_socks_server.Service.Clients.{self_clients}
use cisco_socks_server.Service.Pinner.{PinOps, Pinning, skipped, pin_client}

abbrev ips_of : List LanClient → List Bytes
ips_of [] = []
ips_of (lc ∷ lcs) = lc.ip ∷ ips_of lcs

listed-self_clients :
    ⦃t : V6Text⦄ (lcs : List LanClient) (self : Addr) (ip : Bytes)
    → (listed (self_clients lcs self) ip ≡ true)
      ↔ ((listed (ips_of lcs) ip ≡ true) × (ip ≡ print_addr self))
unfolding self_clients listed
listed-self_clients [] self ip =
    (λ h. absurd (ground (arith, h)), λ h. absurd (ground (arith, h.0)))
listed-self_clients (lc ∷ lcs) self ip =
    let (rest, back) = listed-self_clients lcs self ip in
    elim (Bool-cases (str_eq lc.ip (print_addr self))) [
      | inl own ↦ rw own (
        λ h. elim (Bool-cases (str_eq lc.ip ip)) [
          | inl here ↦ (
            ground (arith, here),
            sym ((str_eq_iff lc.ip ip).0 here) ∙ (str_eq_iff lc.ip (print_addr self)).0 own,
          )
          | inr there ↦
              let (again, same) = rest (ground (arith, h, there)) in (ground (arith, again), same)
        ],
        λ h.
            ground (
              arith,
              (str_eq_iff lc.ip ip).1 ((str_eq_iff lc.ip (print_addr self)).0 own ∙ sym h.1),
            ),
      )
      | inr other ↦ rw other (
        λ h. let (again, same) = rest h in (ground (arith, again), same),
        λ h. elim (Bool-cases (str_eq lc.ip ip)) [
          | inl here ↦ absurd (
              ground (
                arith,
                other,
                (str_eq_iff lc.ip (print_addr self)).1 ((str_eq_iff lc.ip ip).0 here ∙ h.1),
              ))
          | inr there ↦ back (ground (arith, h.0, there), h.1)
        ],
      )
    ]

-- A client that is warned of is left alone by the pinner as long as the address is ours.
pub warned_skipped :
    {W : Type 0} (ops : PinOps W) ⦃t : V6Text⦄ (lcs : List LanClient) (state : State)
    (ip mac : Bytes) (s : Pinning W)
    → listed (self_clients lcs state.lan_addr) ip ≡ true
    → pin_client ops state (ip, mac) s ≡ s
unfolding pin_client skipped
warned_skipped ops lcs state ip mac s warned =
    let (_, same) = (listed-self_clients lcs state.lan_addr ip).0 warned in
    ground (arith, (str_eq_iff ip (print_addr state.lan_addr)).1 same)
