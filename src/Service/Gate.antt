-- ===== src/Service/Gate.antt =====
-- internal/service/socks.go: what the SOCKS5 server is told for one listener, and the two gates
-- that stay shut while the VPN is down. The server itself is a library.
pub mod Leak
use cisco_socks_server.Prelude.{
  ℕ, Bool, true, false, not, ◌&&◌, Option, none, some, Bytes, if◌then◌else◌, is_empty,
}
use cisco_socks_server.Service.State.{Options, State}

-- The options of `newSocksServer` that differ between listeners: the credentials, if any.
unfoldable pub credentials : Options → Bool → Option (Bytes × Bytes)
credentials opts lan =
    if lan && not (is_empty opts.socks_user)
    then some (opts.socks_user, opts.socks_password)
    else none

-- The result of `vpnGate`: the request passes, or it is refused behind a reply, or the reply
-- could not be sent.
pub data GateResult : Type 0 where
  passed refused reply_failed : GateResult

-- `vpnGate`; `sends` tells whether the reply is sent.
unfoldable pub vpn_gate : State → Bool → GateResult
vpn_gate st sends =
    if not st.cisco_connected then (if not sends then reply_failed else refused) else passed

-- `vpnGatedResolver.Resolve`, over the resolver of the library; `none` is an error.
unfoldable pub resolve {ℓ} : {Ip : Type ℓ} → (Bytes → Option Ip) → State → Bytes → Option Ip
resolve resolver st name = if not st.cisco_connected then none else resolver name
