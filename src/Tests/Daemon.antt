-- ===== src/Tests/Daemon.antt =====
-- internal/service/service.go: a run of all goroutines.
use cisco_socks_server.Prelude.{Bool, is_empty, true, false, [], ◌∷◌, some, ◌≡◌, refl, inl, str_eq}
use cisco_socks_server.Net.Addr.{v4, masked}
use cisco_socks_server.Service.State.{
  minute, lan_snapshot, lan_changed, snapshot_eq, discovery_enabled,
}
use cisco_socks_server.Service.Conns.{add}
use cisco_socks_server.Service.Listener.{Wakeup, bind_lan, drop_stale, open_lan, serve_round}
use cisco_socks_server.Service.Supervisor.{
  tick, detect_lan, found_lan, confirm_lan, apply_lan, keep_lan, on_state, connect, connect_with,
  when_connected, set_connected, disable_pf, notify_ready,
}
use cisco_socks_server.Service.System.{arp_ops, new_service}
use cisco_socks_server.Service.System.Safety.{IsSafe}
use cisco_socks_server.Service.Proxy.{accept_round, failed, Ended}
use cisco_socks_server.Service.Rebind.{at_head}
use cisco_socks_server.Service.Sniffer.{observe_syn}
use cisco_socks_server.Service.Stages.{pinning, Daemon, Group, stopped, serving, launch}
use cisco_socks_server.Service.Daemon.{
  Reach, here, next, cancels, ticked, exits, opens, ends_group, stops_accepting, stops_watching,
  ends_serving, closes_proxy, accepts_lan, reads, binds, checks, opens_dns, opens_pinner, visits,
  sniffs, greets,
}
use cisco_socks_server.Service.Daemon.Kernel.{daemon-IsSafe}
use cisco_socks_server.Service.Daemon.Quiet.{NeverUp}
use cisco_socks_server.Service.Daemon.Idle.{daemon_waits}
use cisco_socks_server.Service.Daemon.Clean.{is_serving, is_running, daemon-marks}
use cisco_socks_server.Service.Daemon.Catch.{daemon_catches_up}
use cisco_socks_server.Tests.Samples.{sample_v6, phone, phone_ip, phone_mac, phone_client}
use cisco_socks_server.Tests.Supervisor.{refusal, success}
use cisco_socks_server.Tests.System.{kernel, syn, syn-read}
use cisco_socks_server.Tests.Loops.{discovers, from_home}

-- Some turns of the goroutines, over the kernel of the tests.
abbrev Turns : Daemon Bool → Daemon Bool → Type 0
Turns = Reach (arp_ops kernel) discovers from_home

abbrev Ran : Type 0
Ran = (d : Daemon Bool) × Turns (launch discovers false) d

-- Before the VPN is up: two rounds of the supervisor, and a SYN.
rested : Ran
unfolding tick lan_snapshot detect_lan found_lan confirm_lan apply_lan lan_changed snapshot_eq
    on_state connect connect_with when_connected set_connected masked discovery_enabled
rested = (
  _,
  next (next (next here (ticked _ refusal refl)) (ticked _ refusal refl))
      (greets _ true _ (some (v4 phone_ip)) minute (inl refl)),
)

rested-NeverUp : NeverUp rested.0.past
unfolding rested new_service
rested-NeverUp = (refl, (refl, (refl, tt)))

daemon_waits_example :
    (rested.0.sup.shared.ready_closed ≡ false)
    × (rested.0.sup.shared.status.proxy_started ≡ false)
    × (rested.0.sup.shared.status.dns_started ≡ false)
    × (rested.0.listener.conns.conns ≡ [])
    × (rested.0.pins ≡ [])
    × ((observe_syn
          (arp_ops kernel)
          rested.0.sup.shared.status
          (v4 phone_ip)
          phone_mac
          minute
          (pinning rested.0)).world
        ≡ rested.0.world)
unfolding rested
daemon_waits_example =
    daemon_waits (arp_ops kernel) discovers from_home false rested.0.sup.shared.status (v4 phone_ip)
      phone_mac minute rested.1 rested-NeverUp (inl refl)

-- The VPN is brought up, the servers open, `serveLAN` binds its listener, and a client connects.
served : Ran
unfolding tick lan_snapshot detect_lan found_lan confirm_lan apply_lan lan_changed snapshot_eq
    on_state connect connect_with when_connected set_connected masked disable_pf notify_ready
    serve_round bind_lan drop_stale open_lan discovery_enabled accept_round add new_service str_eq
    keep_lan
served = (
  _,
  next
      (next
        (next
          (next
            (next
              (next
                (next
                  (next (next (next here (ticked _ refusal refl)) (ticked _ success refl))
                    (opens _ refl refl))
                  (opens_dns _ refl refl))
                (reads _ _ refl refl))
              (binds _ _ _ true refl refl))
            (checks _ _ _ refl refl refl))
          (reads _ _ refl refl))
        (binds _ _ _ true refl refl))
      (accepts_lan _ _ 5 refl refl),
)

-- The same run when `serveLAN` is at its first round.
opened : Ran
unfolding tick lan_snapshot detect_lan found_lan confirm_lan apply_lan lan_changed snapshot_eq
    on_state connect connect_with when_connected set_connected masked disable_pf notify_ready
    discovery_enabled new_service str_eq keep_lan
opened =
    (_, next (next (next here (ticked _ refusal refl)) (ticked _ success refl)) (opens _ refl refl))

opened_group : (g : Group) × (opened.0.proxy ≡ serving g) × (g.lan ≡ at_head)
unfolding opened
opened_group = (_, refl, refl)

opened-lan : is_empty (lan_snapshot opened.0.sup.shared.status).iface ≡ false
unfolding opened
opened-lan = refl

daemon_catches_up_example :
    let now = lan_snapshot opened.0.sup.shared.status in
    (e : Daemon Bool) × Turns opened.0 e
    × (lan_snapshot e.sup.shared.status ≡ now)
    × (e.listener.bound ≡ some now)
daemon_catches_up_example =
    daemon_catches_up (arp_ops kernel) discovers from_home false opened_group.0 opened.1
      opened_group.1 (λ e. cc (e, opened_group.2)) opened-lan

-- Then the pinner visits a client, a SYN arrives, and the connection of the client is greeted.
busy : Ran
unfolding served
busy = (
  _,
  next
      (next
        (next (next served.1 (opens_pinner _ refl refl))
          (visits _ served.0.sup.shared.status (phone, phone_mac) refl (inl refl) refl refl))
        (sniffs _ served.0.sup.shared.status syn phone_ip phone_mac minute refl (inl refl)
          syn-read))
      (greets _ true served.0.sup.shared.status (some (v4 phone_ip)) minute (inl refl)),
)

daemon-IsSafe_example : IsSafe (phone_client ∷ []) busy.0.sup
daemon-IsSafe_example = daemon-IsSafe kernel discovers from_home false busy.1

daemon-marks_example :
    (busy.0.sup.shared.status.proxy_started ≡ is_serving busy.0.proxy)
    × (busy.0.sup.shared.status.dns_started ≡ is_running busy.0.dns)
daemon-marks_example = daemon-marks (arp_ops kernel) discovers from_home false busy.1

-- The context ends while all of them work.
interrupted : Ran
interrupted = (_, next busy.1 (cancels _))

-- The servers and the supervisor return.
ended : Ran
unfolding interrupted busy served accept_round
ended = (
  _,
  next
      (next
        (next
          (next
            (next (next interrupted.1 (ends_group _ _ refl (inl refl)))
              (stops_accepting _ _ (failed true false false) Ended.stopped refl refl refl))
            (stops_watching _ _ refl refl))
          (ends_serving _ _ _ Wakeup.ctx_done refl refl refl))
        (closes_proxy _ _ refl (refl, refl, refl)))
      (exits _ refl refl),
)
