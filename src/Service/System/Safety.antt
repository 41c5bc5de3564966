-- ===== src/Service/System/Safety.antt =====
-- What holds in every interleaving of the goroutines.
use cisco_socks_server.Prelude.{
  arith, Bool, Option, none, some, ◌≡◌, if◌then◌else◌, List, [], ◌∷◌, Bytes, refl, sym, subst, inl,
  inr,
}
use cisco_socks_server.Net.Addr.{v4, V6Text}
use cisco_socks_server.Route.Arp.{ArpEntry, parse_arp_entry, lookup_arp}
use cisco_socks_server.Route.Arp.Line.{parse_arp_entry_sound}
use cisco_socks_server.Route.Commands.{Args, arp_n, lookup_entry}
use cisco_socks_server.Shell.{Ran}
use cisco_socks_server.Service.Pinner.{entry_mac}
use cisco_socks_server.Service.Clients.Registry.{IsCanonical}
use cisco_socks_server.Route.Syn.Sound.{parse_syn_line_sound}
use cisco_socks_server.Service.State.{LanClient}
use cisco_socks_server.Service.Clients.{Registry, new_client_registry, discovered_client_ttl}
use cisco_socks_server.Service.Clients.Registry.{
  expires, IsValid, IsStatic, after-IsValid, history-IsStatic, history-IsValid,
}
use cisco_socks_server.Service.Pinner.{PinOps}
use cisco_socks_server.Service.Proxy.{set_proxy}
use cisco_socks_server.Service.Dns.{set_dns}
use cisco_socks_server.Service.Rebind.{take_check}
use cisco_socks_server.Service.Supervisor.{
  shutdown, set_connected, set_status, Supervisor, Input, start, rounds, tick,
}
use cisco_socks_server.Service.Supervisor.Ready.{IsSound, tick-IsSound, rounds-start-IsSound}
use cisco_socks_server.Service.System.{
  System, new_service, arp_ops, boot, view, put_clients, Step, ticked, exited, marked_proxy,
  marked_dns, checked, expired, visited, sniffed, discovered, Reach, here, next,
}
use cisco_socks_server.Service.System.Calls.{
  AtMostOne, IsCanonicalTable, tick-clients, detect_lan-AtMostOne, pin_client-AtMostOne,
  observe_syn-AtMostOne, discover_client-AtMostOne,
}

-- What holds of the supervisor and the registry that it shares, for the clients of the
-- configuration.
abbrev pub IsSafe : List LanClient → Supervisor → Type 0
IsSafe lan_clients sv =
    IsSound sv
    × IsValid sv.shared.clients
    × ((ip : Bytes) → IsStatic ip (new_client_registry lan_clients) → IsStatic ip sv.shared.clients)

AtMostOne-keeps :
    (lan_clients : List LanClient) (r r' : Registry)
    → AtMostOne r r'
    → IsValid r
    → ((ip : Bytes) → IsStatic ip (new_client_registry lan_clients) → IsStatic ip r)
    → IsValid r' × ((ip : Bytes) → IsStatic ip (new_client_registry lan_clients) → IsStatic ip r')
AtMostOne-keeps lan_clients r r' (inl same) v keeps =
    (subst IsValid (sym same) v, λ ip h. subst (IsStatic ip) (sym same) (keeps ip h))
AtMostOne-keeps lan_clients r r' (inr (c, sound, e)) v keeps = (
  subst IsValid (sym e) (after-IsValid r c sound v),
  λ ip h. subst (IsStatic ip) (sym e) (history-IsStatic r (c ∷ []) ip v (sound, tt) (keeps ip h)),
)

put_clients-IsSafe :
    (lan_clients : List LanClient) (sv : Supervisor) (r : Registry)
    → AtMostOne sv.shared.clients r
    → IsSafe lan_clients sv
    → IsSafe lan_clients (put_clients r sv)
put_clients-IsSafe lan_clients sv r one (sound, v, keeps) =
    let (v', keeps') = AtMostOne-keeps lan_clients sv.shared.clients r one v keeps in
    (
      record {
        ready = sound.ready;
        calm = sound.calm;
        filtered = sound.filtered;
        least = sound.least;
        most = sound.most;
      },
      v',
      keeps',
    )

tick-IsSafe :
    (lan_clients : List LanClient) (inp : Input) (sv : Supervisor)
    → IsSafe lan_clients sv
    → IsSafe lan_clients (tick inp sv).0
tick-IsSafe lan_clients inp sv (sound, v, keeps) =
    let one : AtMostOne sv.shared.clients (tick inp sv).0.shared.clients =
      subst (AtMostOne sv.shared.clients) (sym (tick-clients inp sv))
        (detect_lan-AtMostOne inp.detected sv) in
    let (v', keeps') = AtMostOne-keeps lan_clients sv.shared.clients _ one v keeps in
    (tick-IsSound inp sv sound, v', keeps')

boot-IsSafe : (lan_clients : List LanClient) → IsSafe lan_clients (start (new_service lan_clients))
unfolding new_service rounds
boot-IsSafe lan_clients = (
  rounds-start-IsSound [] (new_service lan_clients) refl refl refl,
  history-IsValid lan_clients [] tt,
  λ ip h. h,
)

-- A goroutine that leaves the clients alone.
same-IsSafe :
    (lan_clients : List LanClient) (sv sv' : Supervisor)
    → sv'.shared.clients ≡ sv.shared.clients
    → (IsSound sv → IsSound sv')
    → IsSafe lan_clients sv
    → IsSafe lan_clients sv'
same-IsSafe lan_clients sv sv' same keep (sound, v, kept) =
    (keep sound, subst IsValid (sym same) v, λ ip h. subst (IsStatic ip) (sym same) (kept ip h))

shutdown-clients : (sv : Supervisor) → (shutdown sv).shared.clients ≡ sv.shared.clients
unfolding shutdown set_connected
shutdown-clients sv = ground arith

shutdown-IsSound : (sv : Supervisor) → IsSound sv → IsSound (shutdown sv)
unfolding shutdown set_connected
shutdown-IsSound sv h = ground arith

take_check-IsSound : (sv : Supervisor) → IsSound sv → IsSound (take_check sv)
take_check-IsSound sv h = ground arith

set_proxy-IsSound :
    (up : Bool) (sv : Supervisor) → IsSound sv → IsSound (set_status (set_proxy up) sv)
set_proxy-IsSound up sv h = ground arith

set_dns-IsSound : (up : Bool) (sv : Supervisor) → IsSound sv → IsSound (set_status (set_dns up) sv)
set_dns-IsSound up sv h = ground arith

module _ {W : Type 0} (ops : PinOps W) ⦃t : V6Text⦄ where
  step-IsSafe :
      (lan_clients : List LanClient) {s u : System W}
      → IsCanonicalTable ops
      → Step ops s u
      → IsSafe lan_clients s.sup
      → IsSafe lan_clients u.sup
  step-IsSafe lan_clients h (ticked s inp) safe = tick-IsSafe lan_clients inp s.sup safe
  step-IsSafe lan_clients h (exited s) safe =
      same-IsSafe lan_clients s.sup (shutdown s.sup) (shutdown-clients s.sup)
        (shutdown-IsSound s.sup) safe
  step-IsSafe lan_clients h (marked_proxy s up) safe =
      same-IsSafe lan_clients s.sup (set_status (set_proxy up) s.sup) refl
        (set_proxy-IsSound up s.sup) safe
  step-IsSafe lan_clients h (marked_dns s up) safe =
      same-IsSafe lan_clients s.sup (set_status (set_dns up) s.sup) refl (set_dns-IsSound up s.sup)
        safe
  step-IsSafe lan_clients h (checked s) safe =
      same-IsSafe lan_clients s.sup (take_check s.sup) refl (take_check-IsSound s.sup) safe
  step-IsSafe lan_clients h (expired s now live) safe =
      put_clients-IsSafe lan_clients s.sup _
        (inr (expires now discovered_client_ttl live, tt, refl)) safe
  step-IsSafe lan_clients h (visited s state c) safe =
      put_clients-IsSafe lan_clients s.sup _ (pin_client-AtMostOne ops state c (view s) h) safe
  step-IsSafe lan_clients h (sniffed s state line ip mac now e) safe =
      put_clients-IsSafe lan_clients s.sup _
        (observe_syn-AtMostOne ops state (v4 ip) mac now (view s) (parse_syn_line_sound line e))
        safe
  step-IsSafe lan_clients h (discovered s state peer now) safe =
      put_clients-IsSafe lan_clients s.sup _
        (discover_client-AtMostOne ops state peer now (view s) h) safe

  -- However the goroutines take turns, and however old the state is that they act on: `ciscoReady`
  -- is closed at most once, while the VPN is down the packet filter counts as enabled, the registry
  -- has one entry for each client with an address that is canonical or not known, and no client of
  -- the configuration is lost. The kernel's entries have to be read in canonical form.
  pub reach-IsSafe :
      (lan_clients : List LanClient) (w : W) {s : System W}
      → IsCanonicalTable ops
      → Reach ops (boot lan_clients w) s
      → IsSafe lan_clients s.sup
  reach-IsSafe lan_clients w h here = boot-IsSafe lan_clients
  reach-IsSafe lan_clients w h (next reached step) =
      step-IsSafe lan_clients h step (reach-IsSafe lan_clients w h reached)

arp_ops-IsCanonicalTable :
    {W : Type 0} ⦃t : V6Text⦄ (run : Args → W → Ran × W) → IsCanonicalTable (arp_ops run)
unfolding lookup_entry
arp_ops-IsCanonicalTable run ip w =
    lookup_arp-IsCanonical
      (if (run (arp_n ip) w).0.failed then none else some (run (arp_n ip) w).0.output)
  where
    entry :
        (out : Bytes) (o : Option ArpEntry) → parse_arp_entry out ≡ o → IsCanonical (entry_mac o)
    entry out none e = inl refl
    entry out (some a) e = inr (parse_arp_entry_sound out e).0

    lookup_arp-IsCanonical : (out : Option Bytes) → IsCanonical (entry_mac (lookup_arp out))
    lookup_arp-IsCanonical none = unfold lookup_arp in inl refl
    lookup_arp-IsCanonical (some out) = unfold lookup_arp in entry out (parse_arp_entry out) refl

-- Whatever the commands answer, however the goroutines take turns, and however old the state is
-- that they act on: `ciscoReady` is closed at most once, while the VPN is down the packet filter
-- counts as enabled, the registry has one entry for each client with an address that is canonical
-- or not known, and no client of the configuration is lost.
pub service-IsSafe :
    {W : Type 0} ⦃t : V6Text⦄ (run : Args → W → Ran × W) (lan_clients : List LanClient) (w : W)
    {s : System W}
    → Reach (arp_ops run) (boot lan_clients w) s
    → IsSafe lan_clients s.sup
service-IsSafe run lan_clients w =
    reach-IsSafe (arp_ops run) lan_clients w (arp_ops-IsCanonicalTable run)
