-- ===== src/Route/Syn/Line.antt =====
-- The line that `tcpdump -n -t -e` prints for a SYN is read as its source.
use cisco_socks_server.Prelude.{
  ℕ, ◌^◌, ◌<◌, false, [], ◌∷◌, ◌++◌, none, some, Bytes, bytes, All, All-append, ◌≡◌, ◌≢◌, refl,
  arith,
}
use cisco_socks_server.Strings.{fields-append, cut, before_last, IsWord, is_space, Lacks, join}
use cisco_socks_server.Net.Addr.{V6Text, print_v4, print_decimal, octet}
use cisco_socks_server.Net.Addr.Text.{parse_addr-print_v4}
use cisco_socks_server.Route.Arp.{canonical_mac}
use cisco_socks_server.Route.Syn.{parse_syn_line, only_v4}

cut-Lacks :
    (p s sep before after : Bytes) (c : ℕ)
    → Lacks c p
    → cut s (c ∷ sep) ≡ some (before, after)
    → cut (p ++ s) (c ∷ sep) ≡ some (p ++ before, after)
unfolding cut
cut-Lacks [] s sep before after c h e = e
cut-Lacks (b ∷ p) s sep before after c h e = ground (arith, cut-Lacks p s sep before after c h.1 e)

before_last-Lacks : (q : Bytes) (c : ℕ) → Lacks c q → before_last q c ≡ none
unfolding before_last
before_last-Lacks [] c h = refl
before_last-Lacks (b ∷ q) c h = ground (arith, before_last-Lacks q c h.1)

before_last-append : (p q : Bytes) (c : ℕ) → Lacks c q → before_last (p ++ (c ∷ q)) c ≡ some p
unfolding before_last
before_last-append [] q c h = ground (arith, before_last-Lacks q c h)
before_last-append (b ∷ p) q c h = ground (arith, before_last-append p q c h)

abbrev NoSpace : Bytes → Type 0
NoSpace = All (λ c. is_space c ≡ false)

print_decimal-NoSpace : (x : ℕ) → x < 256 → NoSpace (print_decimal x)
unfolding print_decimal
print_decimal-NoSpace x h = ground arith

print_v4-NoSpace : (a : ℕ) → NoSpace (print_v4 a)
unfolding print_v4 join
print_v4-NoSpace a =
    dotted (field 0) _ (word 0) (dotted (field 1) _ (word 1) (dotted (field 2) _ (word 2) (word 3)))
  where
    field : ℕ → Bytes
    field i = print_decimal (octet i a)

    word : (i : ℕ) → NoSpace (field i)
    word i = print_decimal-NoSpace (octet i a) (omega arith)

    dotted : (p s : Bytes) → NoSpace p → NoSpace s → NoSpace (p ++ (b'.' ∷ s))
    dotted p s hp hs = All-append _ p (b'.' ∷ s) hp (refl, hs)

-- `<mac> > <destination>, ethertype IPv4 (0x0800), length <size> <endpoint> <rest>`
abbrev pub syn_line : Bytes → Bytes → Bytes → Bytes → Bytes → Bytes
syn_line mac dst size endpoint tail =
    mac
    ++ (b' '
        ∷ (bytes "> "
            ++ (dst
                ++ (bytes ", ethertype IPv4 (0x0800)"
                    ++ (bytes ", length " ++ (size ++ (b' ' ∷ (endpoint ++ (b' ' ∷ tail)))))))))

cut_literal :
    (s : Bytes)
    → cut (bytes ", ethertype IPv4 (0x0800)" ++ (bytes ", length " ++ s)) (bytes ", length ")
      ≡ some (bytes ", ethertype IPv4 (0x0800)", s)
unfolding cut
cut_literal s = refl

cut-syn_line :
    (mac dst size endpoint tail : Bytes)
    → Lacks b',' mac
    → Lacks b',' dst
    → cut (syn_line mac dst size endpoint tail) (bytes ", length ")
      ≡ some (
        mac ++ (b' ' ∷ (bytes "> " ++ (dst ++ bytes ", ethertype IPv4 (0x0800)"))),
        size ++ (b' ' ∷ (endpoint ++ (b' ' ∷ tail))),
      )
cut-syn_line mac dst size endpoint tail hm hd = cut-Lacks mac _ _ _ _ b',' hm (
    cut-Lacks (bytes " > ") _ _ _ _ b',' (omega arith)
      (cut-Lacks dst _ _ _ _ b',' hd (cut_literal _)))

module _ ⦃t : V6Text⦄ where
  -- The source address, and the source hardware address in canonical form, are read from the line
  -- of a SYN from any port, of any length, whatever follows the source.
  pub parse_syn_line-line :
      (mac dst size port tail m : Bytes) (a : ℕ)
      → a < 2 ^ 32
      → IsWord mac × Lacks b',' mac × (canonical_mac mac ≡ some m)
      → Lacks b',' dst
      → IsWord size
      → NoSpace port × Lacks b'.' port
      → parse_syn_line (syn_line mac dst size (print_v4 a ++ (b'.' ∷ port)) tail) ≡ some (a, m)
  unfolding parse_syn_line
  parse_syn_line-line mac dst size port tail m a ha (hw, hc, hm) hd hs (hp, hl) =
      rw
        (
          fields-append mac _ hw,
          hm,
          cut-syn_line mac dst size (print_v4 a ++ (b'.' ∷ port)) tail hc hd,
          fields-append size _ hs,
          fields-append (print_v4 a ++ (b'.' ∷ port)) tail endpoint-IsWord,
          before_last-append (print_v4 a) port b'.' hl,
          parse_addr-print_v4 a ha,
        )
        (unfold only_v4 in refl)
    where
      append-ne-nil : (p q : Bytes) → p ++ (b'.' ∷ q) ≢ []
      append-ne-nil [] q = λ e. cc
      append-ne-nil (c ∷ p) q = λ e. cc

      endpoint-IsWord : IsWord (print_v4 a ++ (b'.' ∷ port))
      endpoint-IsWord = (
        append-ne-nil (print_v4 a) port,
        All-append _ (print_v4 a) (b'.' ∷ port) (print_v4-NoSpace a) (refl, hp),
      )
