-- ===== src/Cisco.antt =====
-- internal/utils/cisco/cisco.go: the Cisco command-line client, by the output of its commands.
pub mod Stream
use cisco_socks_server.Prelude.{
  ℕ, Bool, true, false, not, ◌||◌, ◌&&◌, List, [], ◌∷◌, Option, none, some, Bytes, bytes,
  if◌then◌else◌, str_eq, ◌>>=◌,
}
use cisco_socks_server.Shell.{Ran}
use cisco_socks_server.Strings.{split, trim_space, cut_prefix, cut, has_prefix, contains}

-- `StateConnected` and the other states.
pub data VpnState : Type 0 where
  connected disconnected reconnecting unknown : VpnState

-- The text before the first blank, or all of it.
unfoldable pub first_word : Bytes → Bytes
first_word s = elim (cut s (bytes " ")) [ none ↦ s | some (before, after) ↦ before ]

-- One round of the loop of `parseState`.
unfoldable pub take_state : Bytes → Bytes → Bytes
take_state last line = elim (cut_prefix (trim_space line) (bytes ">> state: ")) [
  | none ↦ last
  | some state ↦ first_word state
]

unfoldable pub last_state : Bytes → List Bytes → Bytes
last_state last [] = last
last_state last (line ∷ lines) = last_state (take_state last line) lines

-- The switch of `parseState`.
unfoldable pub classify : Bytes → VpnState
classify last =
    if str_eq last (bytes "Подключено") || str_eq last (bytes "Connected")
    then connected
    else if str_eq last (bytes "Отключено") || str_eq last (bytes "Disconnected")
    then disconnected
    else if str_eq last (bytes "Reconnecting")
    then reconnecting
    else unknown

-- `parseState`
unfoldable pub parse_state : Bytes → VpnState
parse_state output = classify (last_state [] (split output b'\n'))

-- A line that reports the conflict with another client.
unfoldable pub is_acquired_line : Bytes → Bool
is_acquired_line line =
    has_prefix (trim_space line) (bytes ">> error:")
    && contains (trim_space line) (bytes "Connect capability is unavailable")

any_acquired : List Bytes → Bool
any_acquired [] = false
any_acquired (line ∷ lines) = is_acquired_line line || any_acquired lines

-- `hasAcquiredError`
unfoldable pub has_acquired_error : Bytes → Bool
unfolding any_acquired
has_acquired_error output = any_acquired (split output b'\n')

-- `Status`; `none` is an error.
unfoldable pub status : Ran → Option VpnState
status run = if run.failed then none else some (parse_state run.output)

-- The result of `Connect`: `ErrAcquired`, another error, or none.
pub data ConnectResult : Type 0 where
  acquired connect_failed connect_ok : ConnectResult

after_status : Option VpnState → ConnectResult
after_status (some connected) = connect_ok
after_status _ = connect_failed

-- `Connect`, by the run of `vpn -s connect` and that of `vpn -s state`.
unfoldable pub connect : Ran → Ran → ConnectResult
unfolding after_status
connect run state =
    if has_acquired_error run.output
    then acquired
    else if run.failed
    then connect_failed
    else after_status (status state)

-- `Disconnect` and `DisablePF`: whether they succeed.
unfoldable pub disconnect : Ran → Bool
disconnect run = not run.failed

unfoldable pub disable_pf : Ran → Bool
disable_pf run = not run.failed || contains run.output (bytes "pf not enabled")
