-- ===== src/Tests/Rounds.antt =====
-- internal/service/service.go: the rounds of the pinner.
use cisco_socks_server.Prelude.{
  ◌*◌, Bool, true, false, List, [], none, some, Bytes, ◌≡◌, refl, arith, lookup, insert, retain,
  str_eq,
}
use cisco_socks_server.Service.State.{zero_state, minute, time_sub}
use cisco_socks_server.Service.Clients.{
  ClientEntry, new_client_registry, seen, touch, expire, stays,
}
use cisco_socks_server.Service.Pinner.{PinOps, expire_round, pinner_round}
use cisco_socks_server.Service.Pinner.Rounds.{
  Life, after_round, rounds, hears, Lives, here, next, begins, HasReason, after_round-HasReason,
}
use cisco_socks_server.Tests.Samples.{sample_v6, phone, phone_mac}

-- The kernel has no entries and takes every pin.
abbrev bare : PinOps Bool
bare = record { lookup = λ ip w. (none, w); pin = λ ip mac iface w. (true, true) }

abbrev as_held : List (Bytes × Bytes) → List (Bytes × Bytes)
as_held l = l

abbrev idle : Bytes → Bool
idle ip = false

-- A SYN of the client, and a round of the pinner.
abbrev minutes : (l : Life Bool) × Lives bare (begins bare [] 0 false) l
minutes = (
  _,
  next (next here (hears _ phone phone_mac minute (omega arith)))
      (rounds _ as_held (2 * minute) idle zero_state (omega arith)),
)

abbrev heard : ClientEntry
heard = record { last_seen = minute; mac = phone_mac; static = false }

heard-found :
    lookup phone (after_round bare as_held (3 * minute) idle zero_state minutes.0).pinning.clients
    ≡ some heard
unfolding pinner_round expire_round expire stays time_sub seen touch new_client_registry insert
    lookup retain str_eq
heard-found = refl

after_round-HasReason_example :
    HasReason bare (after_round bare as_held (3 * minute) idle zero_state minutes.0) phone heard
after_round-HasReason_example =
    after_round-HasReason bare [] 0 false as_held (3 * minute) idle zero_state phone heard minutes.1
      (omega arith) heard-found
