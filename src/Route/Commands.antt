-- ===== src/Route/Commands.antt =====
-- internal/utils/route/route.go and syn.go: `LookupARP`, `Pin` and `WatchSYN`, by the commands that
-- they run. What a command does is a parameter.
use cisco_socks_server.Prelude.{
  ℕ, Bool, not, List, [], ◌∷◌, ◌++◌, Option, none, some, Bytes, bytes, if◌then◌else◌,
}
use cisco_socks_server.Net.Addr.{V6Text}
use cisco_socks_server.Shell.{Ran, Process, StreamError, stream}
use cisco_socks_server.Route.Arp.{ArpEntry, lookup_arp}
use cisco_socks_server.Route.Syn.{parse_syn_line}

-- The name of a command and its arguments.
abbrev pub Args : Type 0
Args = List Bytes

abbrev pub arp_n : Bytes → Args
arp_n ip = bytes "arp" ∷ bytes "-n" ∷ ip ∷ []

abbrev pub route_change : Bytes → Bytes → Args
route_change ip iface = bytes "route" ∷ bytes "change" ∷ ip ∷ bytes "-interface" ∷ iface ∷ []

abbrev pub arp_s : Bytes → Bytes → Args
arp_s ip mac = bytes "arp" ∷ bytes "-S" ∷ ip ∷ mac ∷ bytes "temp" ∷ []

-- The arguments of `tcpdump`.
abbrev pub tcpdump : Bytes → Bytes → Args
tcpdump iface port =
    bytes "tcpdump"
    ∷ bytes "-i"
    ∷ iface
    ∷ bytes "-p"
    ∷ bytes "-l"
    ∷ bytes "-n"
    ∷ bytes "-t"
    ∷ bytes "-e"
    ∷ bytes "-s"
    ∷ bytes "128"
    ∷ (bytes "tcp dst port " ++ (port ++ bytes " and tcp[tcpflags] & (tcp-syn|tcp-ack) == tcp-syn"))
    ∷ []

module _ {W : Type 0} (run : Args → W → Ran × W) where
  -- `LookupARP`
  unfoldable pub lookup_entry : Bytes → W → Option ArpEntry × W
  lookup_entry ip w =
      let (r, w') = run (arp_n ip) w in (lookup_arp (if r.failed then none else some r.output), w')

  -- `Pin`: whether it succeeds. What `route change` answers is ignored.
  unfoldable pub pin : Bytes → Bytes → Bytes → W → Bool × W
  pin ip mac iface w =
      let (r, w') = run (arp_s ip mac) (run (route_change ip iface) w).1 in (not r.failed, w')

module _ ⦃t : V6Text⦄ where
  unfoldable pub handle_syn {ℓ} : {S : Type ℓ} → (ℕ → Bytes → S → S) → Option (ℕ × Bytes) → S → S
  handle_syn on_syn none s = s
  handle_syn on_syn (some (ip, mac)) s = on_syn ip mac s

  -- `WatchSYN`, by the run of `tcpdump`.
  unfoldable pub watch_syn {ℓ} :
      {S : Type ℓ}
      → (Args → Process)
      → Bytes
      → Bytes
      → (ℕ → Bytes → S → S)
      → S
      → S × Option StreamError
  watch_syn exec iface port on_syn s =
      stream (λ line s. handle_syn on_syn (parse_syn_line line) s) (exec (tcpdump iface port)) s
