-- ===== src/Route/Syn/Watch.antt =====
-- What `WatchSYN` reports of the output of `tcpdump`.
use cisco_socks_server.Prelude.{
  ℕ, true, List, [], ◌∷◌, Option, none, some, Bytes, if◌then◌else◌, ◌≡◌, refl, All, Option-cases,
  inl, inr, ◌∙◌,
}
use cisco_socks_server.Net.Addr.{V6Text}
use cisco_socks_server.Strings.{trim_space}
use cisco_socks_server.Shell.{Process, exited, tail_size, each_line}
use cisco_socks_server.Shell.Lines.{IsLine, unlines, stream-lines}
use cisco_socks_server.Shell.Tail.{joined, last_bytes}
use cisco_socks_server.Route.Syn.{parse_syn_line}
use cisco_socks_server.Route.Commands.{Args, tcpdump, handle_syn, watch_syn}

abbrev add_syn : Option (ℕ × Bytes) → List (ℕ × Bytes) → List (ℕ × Bytes)
add_syn none syns = syns
add_syn (some p) syns = p ∷ syns

abbrev pub each_syn {ℓ} : {S : Type ℓ} → (ℕ → Bytes → S → S) → List (ℕ × Bytes) → S → S
each_syn on_syn [] s = s
each_syn on_syn ((ip, mac) ∷ syns) s = each_syn on_syn syns (on_syn ip mac s)

module _ ⦃t : V6Text⦄ where
  -- The SYNs that the lines show.
  abbrev pub syns_of : List Bytes → List (ℕ × Bytes)
  syns_of [] = []
  syns_of (line ∷ lines) = add_syn (parse_syn_line line) (syns_of lines)

  each_line-syns {ℓ} :
      {S : Type ℓ} (on_syn : ℕ → Bytes → S → S) (lines : List Bytes) (s : S)
      → each_line (λ line s. handle_syn on_syn (parse_syn_line line) s) lines s
        ≡ each_syn on_syn (syns_of lines) s
  unfolding each_line handle_syn
  each_line-syns on_syn [] s = refl
  each_line-syns on_syn (line ∷ lines) s = elim (Option-cases (parse_syn_line line)) [
    | inl e ↦ rw (e, handle_syn, add_syn) (each_line-syns on_syn lines s)
    | inr ((ip, mac), e) ↦
        rw (e, handle_syn, add_syn) (each_line-syns on_syn lines (on_syn ip mac s))
  ]

  -- `WatchSYN` reports each SYN that `tcpdump` prints once, in order, and skips the other lines;
  -- when `tcpdump` fails, the error carries the last 1024 bytes of its stderr, without the white
  -- space at the ends.
  pub watch_syn-lines {ℓ} :
      {S : Type ℓ} (exec : Args → Process) (iface port : Bytes) (on_syn : ℕ → Bytes → S → S)
      (lines : List Bytes) (s : S)
      → (exec (tcpdump iface port)).starts ≡ true
      → (exec (tcpdump iface port)).stdout ≡ unlines lines
      → All IsLine lines
      → watch_syn exec iface port on_syn s ≡ (
        each_syn on_syn (syns_of lines) s,
        if (exec (tcpdump iface port)).fails
            then some (
                exited
                  (trim_space (last_bytes tail_size (joined (exec (tcpdump iface port)).stderr))))
            else none,
      )
  unfolding watch_syn
  watch_syn-lines exec iface port on_syn lines s started printed h =
      stream-lines _ (exec (tcpdump iface port)) lines s started printed h
      ∙ rw (each_line-syns on_syn lines s)
