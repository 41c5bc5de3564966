-- ===== src/Service/State.antt =====
-- internal/service/service.go and lan.go: `Options`, `State`, `lanSnapshot`, and time.
use cisco_socks_server.Prelude.{
  ℕ, ◌-◌, ◌*◌, ◌^◌, min, Bool, false, not, ◌&&◌, ◌||◌, List, [], Bytes, is_empty, str_eq,
}
use cisco_socks_server.Net.Addr.{Addr, no_addr, Prefix, no_prefix, prefix_eq}

-- A time is the nanoseconds since the zero `time.Time`. `now.Sub(t)` saturates at the greatest
-- duration; a negative one is 0 here, since the code only compares it with positive durations.
abbrev pub max_duration : ℕ
max_duration = 2 ^ 63 - 1

unfoldable pub time_sub : ℕ → ℕ → ℕ
time_sub now t = min (now - t) max_duration

abbrev pub second : ℕ
second = 1_000_000_000

abbrev pub minute : ℕ
minute = 60 * second

-- `LANClient`
pub record LanClient : Type 0 where
  pub ip : Bytes
  pub mac : Bytes

-- `Options`
pub record Options : Type 0 where
  pub cisco_user : Bytes
  pub cisco_password : Bytes
  pub cisco_profile : Bytes
  pub socks_user : Bytes
  pub socks_password : Bytes
  pub dns_servers : List Bytes
  pub lan_clients : List LanClient
  pub lan_discovery : Bool

-- `State`
pub record State : Type 0 where
  pub lan_subnet : Prefix
  pub lan_addr : Addr
  pub lan_interface : Bytes
  pub cisco_connected : Bool
  pub pf_disabled : Bool
  pub proxy_started : Bool
  pub dns_started : Bool

-- The zero value.
abbrev pub zero_state : State
zero_state = record {
  lan_subnet = no_prefix;
  lan_addr = no_addr;
  lan_interface = [];
  cisco_connected = false;
  pf_disabled = false;
  proxy_started = false;
  dns_started = false;
}

-- `lanSnapshot`
pub record LanSnapshot : Type 0 where
  pub subnet : Prefix
  pub iface : Bytes

abbrev pub zero_snapshot : LanSnapshot
zero_snapshot = record { subnet = no_prefix; iface = [] }

-- `a == b` on snapshots.
unfoldable pub snapshot_eq : LanSnapshot → LanSnapshot → Bool
snapshot_eq a b = prefix_eq a.subnet b.subnet && str_eq a.iface b.iface

-- `s.lanSnapshot()`
unfoldable pub lan_snapshot : State → LanSnapshot
lan_snapshot st = record { subnet = st.lan_subnet; iface = st.lan_interface }

-- `lanChanged`
unfoldable pub lan_changed : LanSnapshot → LanSnapshot → Bool
lan_changed cur next = not (is_empty next.iface) && not (snapshot_eq next cur)

-- `discoveryEnabled`
unfoldable pub discovery_enabled : Options → Bool
discovery_enabled opts = not (is_empty opts.socks_user) || opts.lan_discovery
