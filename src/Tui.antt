-- ===== src/Tui.antt =====
-- internal/utils/tui: the queue of log lines, the texts of the panels, and the colour of the banner.
-- Drawing them is the library's.
pub mod Queue
pub mod Banner
pub mod Layout
pub mod Uptime
pub mod Session
pub mod Restore
use cisco_socks_server.Prelude.{
  ℕ, zero, suc, ◌+◌, ◌>>=◌, Bool, true, false, List, [], ◌∷◌, ◌++◌, Option, none, some, Bytes,
  bytes, length, get_elem?, ltb, if◌then◌else◌, is_empty,
}
use cisco_socks_server.Log.{colorize}
use cisco_socks_server.Service.State.{State}

-- The capacity of the channel that `CreateTUI` makes.
abbrev pub log_capacity : ℕ
log_capacity = 256

-- `logWriter.Write`, on the channel, with the count that it returns: a full channel drops the line.
unfoldable pub write : List Bytes → Bytes → List Bytes × ℕ
write logs p = (if ltb (length logs) log_capacity then logs ++ (p ∷ []) else logs, length p)

-- The lines that wait, those that `setupLogs` has handed to `g.Update`, which prints each in a
-- goroutine of its own, and those that are printed.
pub record LogView : Type 0 where
  pub logs : List Bytes
  pub updates : List Bytes
  pub printed : List Bytes

print_first : List Bytes → LogView → LogView
print_first [] v = v
print_first (msg ∷ more) v = record {
  logs = more;
  updates = v.updates ++ (msg ∷ []);
  printed = v.printed;
}

-- One round of the loop of `setupLogs`, if a line waits.
unfoldable pub print_log : LogView → LogView
unfolding print_first
print_log v = print_first v.logs v

-- The element at an index, if there is one, and the others.
unfoldable pub pull : ℕ → List Bytes → List Bytes × List Bytes
pull n [] = ([], [])
pull zero (x ∷ xs) = (x ∷ [], xs)
pull (suc n) (x ∷ xs) = let (picked, rest) = pull n xs in (picked, x ∷ rest)

-- The function of one call of `g.Update` runs: any, since they come in no order.
unfoldable pub draw : ℕ → LogView → LogView
draw n v =
    let (picked, rest) = pull n v.updates in
    record v { updates = rest; printed = v.printed ++ picked }

-- `indicator`
unfoldable pub indicator : Bool → Bytes
indicator ok = if ok then colorize (bytes "● OK") 10 else colorize (bytes "○ --") 9

-- `bindLabel`
unfoldable pub bind_label : Bytes → Bytes
bind_label iface =
    if is_empty iface then colorize (bytes "○ --") 9 else colorize (bytes "● " ++ iface) 10

abbrev status_line : Bytes → Bytes → Bytes
status_line label value = label ++ (value ++ (b'\n' ∷ []))

-- What `setupStatus` prints of the state.
unfoldable pub status_text : State → Bytes
status_text state =
    status_line (bytes " VPN    ") (indicator state.cisco_connected)
    ++ (status_line (bytes " PF     ") (indicator state.pf_disabled)
        ++ (status_line (bytes " Bind   ") (bind_label state.lan_interface)
            ++ (status_line (bytes " Proxy  ") (indicator state.proxy_started)
                ++ status_line (bytes " DNS    ") (indicator state.dns_started))))

-- The figures of `randomArt`.
abbrev pub arts : List Bytes
arts =
    bytes "⊂(◉‿◉)つ"
    ∷ bytes "( ✜︵ ✜ )"
    ∷ bytes "ʕっ •ᴥ•ʔっ"
    ∷ bytes "(｡◕‿‿◕｡)"
    ∷ bytes "(っ ´ω`c)♡"
    ∷ bytes "(ʘ‿ʘ)╯"
    ∷ []

-- What `setupBanner` prints, for the number that is drawn; `none` would be a panic.
unfoldable pub banner_text : ℕ → Option Bytes
banner_text drawn = do
  art ← get_elem? arts drawn
  some (bytes " " ++ (art ++ bytes " cisco-socks-server"))

-- One tick of `animateBanner`.
unfoldable pub next_color : ℕ → ℕ
next_color cl = if ltb 231 (cl + 1) then 52 else cl + 1

-- The colour after some ticks.
unfoldable pub color_after : ℕ → ℕ
color_after zero = 51
color_after (suc n) = next_color (color_after n)
