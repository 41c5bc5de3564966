-- ===== src/Lib.antt =====
-- A daemon that keeps the Cisco VPN client connected and offers the VPN to the local network: a
-- SOCKS5 proxy on the loopback and on the LAN interface, a DNS forwarder, and a pinner that keeps
-- LAN clients reachable, by ARP entries, while the VPN client routes their subnet into its tunnel.
--
-- The goroutines share one `Service`. The supervisor (`Service/Supervisor`, of
-- internal/service/cisco.go) polls the VPN client and the LAN, writes `State`, resets the client
-- registry when the network changes and wakes up the owner of the LAN listener. The pinner
-- (`Service/Pinner`, of internal/service/service.go) reads `State` and the registry and acts on the
-- kernel's ARP table. The sniffer and the accept hook (`Service/Sniffer`, of
-- internal/service/sniff.go and clients.go) fill the registry. The listener (`Service/Listener`, of
-- internal/service/lan.go) follows the LAN in `State`, and closes connections by the tracker
-- (`Service/Conns`, of internal/service/proxy.go), which also tells the expiry who is still there.
-- The gates (`Service/Gate`, of internal/service/socks.go) refuse requests while the VPN is down.
-- `Service/System` lets the supervisor, the pinner and the sniffer take turns in any order, and
-- `Service/Rebind` the supervisor, the listener and the connections, which share the channel
-- `lanCheck` and the tracker; there a round of the supervisor is taken in the parts that the others
-- see (`Service/Round`), so that a LAN is stored before `notifyLANCheck` is called.
-- `Service/Daemon` has all goroutines of `Start` and those of the group of `startProxy` in one
-- relation, from the launch to the last return, with what each waits for (`Service/Stages`). The
-- context may be done at any time, by a signal or by an error of a goroutine, and a goroutine may
-- act on any state that was there.
--
--   Prelude, Strings   shared helpers: Boolean tests, lists, maps by association lists, Go's strings
--   Net/Mac, Net/Addr  net.ParseMAC, netip.Addr and netip.Prefix, as far as the program uses them
--   Route/Arp          internal/utils/route/route.go: ARP entries, `DecidePin`, `CanonicalMAC`
--   Route/Lan          internal/utils/route/route.go: `DetectLAN` and what it reads
--   Route/Syn          internal/utils/route/syn.go: `parseSYNLine`
--   Route/Commands     internal/utils/route: `LookupARP`, `Pin`, `WatchSYN` and their commands
--   Service/State      `Options`, `State` and LAN snapshots
--   Service/Clients    internal/service/clients.go: the registry
--   Service/SniffLoop  internal/service/sniff.go: `startSniffer`, `sniffLAN`
--   Service/Proxy      internal/service/proxy.go: `acceptConns`, `startProxy`
--   Service/Dns        internal/service/dns.go: `forwardDNS`, the handler, `startDNS`
--   Service/Round      internal/service/cisco.go: `tick` and `detectLAN` in the parts that others see
--   Service/Rebind     internal/service/lan.go: `serveLAN` and the supervisor as steps in any order
--   Service/System     internal/service/service.go: `Start`, the goroutines as steps in any order
--   Service/Stages     internal/service/service.go, proxy.go, lan.go: where the goroutines stand
--   Service/Daemon     internal/service/service.go: `Start` and `startProxy`, all goroutines at once
--   Cisco              internal/utils/cisco/cisco.go: the output of the VPN client
--   Shell              internal/utils/shell/shell.go: `Stream` and `tailBuffer`
--   Config             cmd/config.go: `loadConfig`, `validate` and `serviceOptions`
--   Main               cmd/main.go: `run` and the exit code
--   Log                internal/utils/log/logger.go: the handler that renders the lines of the log
--   Service/Bind       internal/service/bind_darwin.go, bind_other.go: the socket of the LAN listener
--   Tui                internal/utils/tui: `CreateTUI` with what it restores, the layout of the
--                      panels, the queue of log lines, the texts and colours of the panels, and
--                      the uptime, over the methods of `time.Duration`
--   Tests              concrete inputs
--
-- Definitions carry the source's names in this library's spelling: `observeSYN` is `observe_syn`. A
-- method is a function from the state that it reads and writes to the new one; a method that holds
-- a lock throughout is one step. What a command, the clock or the network answers is an argument
-- (`Input` of the supervisor, `PinOps` of the pinner, `Host` of the LAN detection, `Ran` of the VPN
-- client, `DnsLib` of the forwarder, `Process` of `Stream`, `run` of the ARP commands,
-- `SnifferInput`, `Accepted` and `ProxyInput` of the loops, `Environment` of `loadConfig`,
-- `Sockets` of the bind, `Gui` and `DurationOps` of the panels), so the theorems hold for every
-- answer, or for those that the named library documents. A level of the log is counted from
-- `slog.LevelDebug`.
--
-- Bounds: all loops are structural recursion on the list that they go through; only the digits of a
-- number have fuel, 19 digits being enough for an `int`. The endless loops are given round by
-- round, and `rounds`, `run` and `write_all` put any number of rounds together; `Reach` lets the
-- goroutines take turns in any order, where one client of the pinner and one SYN are each one turn;
-- a round of the supervisor is one turn in `Service/System` and `Service/Daemon`, which do not show
-- what others see in the middle of it, and several in `Service/Rebind`. A time is the number of
-- nanoseconds since the zero time, and a difference of times is cut at the greatest duration and at
-- 0. Strings are lists of bytes. White space is the ASCII one. An IPv4 address is its 32-bit value;
-- the text of IPv6 addresses is a parameter. The order in which Go visits a map is an argument
-- where the order can matter.
--
-- The scanner of `Stream` stops at a line of 65536 bytes, as that of the Go library does.
--
-- Not modelled: which lines are logged and when, timeouts and cancellation of commands, sockets but
-- for the option that `Service/Bind` sets, the goroutine that closes the loopback listener (a
-- failed `Accept` of the model), what the gocui library draws, and the libraries.
pub mod Prelude
pub mod Strings
pub mod Net
pub mod Route
pub mod Service
pub mod Cisco
pub mod Shell
pub mod Config
pub mod Main
pub mod Log
pub mod Tui
pub mod Tests
