-- ===== src/Lib.antt =====
-- A model of batchudp, the UDP bind of WireGuard on gonnect networks, in Go.
--
-- StdNetBind (bind_std.go) opens a socket for each address family, receives packets in batches and
-- sends them in batches. On Linux it gives the kernel several datagrams as one message with a
-- segment size (UDP_SEGMENT) and takes messages of several datagrams from it (UDP_GRO).
-- linuxBatchingConn (batching_conn_linux.go) does the same for one connection. The control messages
-- that carry the segment size (gso_linux.go) and the source address (sticky_linux.go) are bytes in
-- the messages that both pass to golang.org/x/net.
--
-- Files, with the functions that they model:
--   Slice: byte slices with their capacity, addresses, `ipv6.Message`.
--   Unix: golang.org/x/sys/unix, a parameter, with its documented behaviour (`UnixLaws`).
--   Gso: `getGSOSize`, `setGSOSize` (gso_linux.go).
--   Sticky: `ClearSrc`, `getSrcFromControl`, `setSrcControl` (sticky_linux.go, bind_std.go);
--     Sticky/Source: `SrcIP`, `SrcIfidx`.
--   Linux: the control functions (controlfns_linux.go), `listenConfig` (controlfns.go),
--     `supportsUDPOffload` (features_linux.go), `SetMark` (mark_unix.go), over a parameter for
--     x/sys/unix and gonnect's sockopt. Linux/Elsewhere: the control functions of the other systems
--     (controlfns_unix.go, controlfns_windows.go).
--   Coalesce: the loop of `coalesceMessages`, over the four operations in which the copies of
--     bind_std.go and batching_conn_linux.go differ; Std/Pack and Batching/Pack fill them in.
--   Split: `splitCoalescedMessages`, `groReadBatchSize` (bind_std.go).
--   Std: `StdNetBind`, its options and constructor; Std/Open: `Open`, `listenNet`,
--     `configureSocket`; Std/Close: `Close`; Std/Send: `Send`; Std/Receive: `receiveIP` and the
--     functions that `makeReceiveIPv4` and `makeReceiveIPv6` return. gonnect's network and sockets
--     are a parameter over a type of states of the operating system. Std/Pool: the messages that
--     its pool makes.
--   Write: `send` (bind_std.go) and `writeBatch` (batching_conn_linux.go).
--   Batching/Link: `ReadBatch`, `WriteBatchTo`, `putSendBatch` (batching_conn_linux.go);
--     Batching/Upgrade: `TryUpgradeToBatchingConn`, with the batches of its pool.
--   Conn: `validateReceiveBuffers`, `networkDown` (conn.go), `errShouldDisableUDPGSO`
--     (errors_linux.go); Conn/Name: `PrettyName` (conn.go).
--   Win: WinRingBind (bind_windows.go): Win/Ring the packet ring, Win/Queue sending and receiving
--     on one family, Win/Open `Open` and `Close`, Win/Bind the two families together. Windows and
--     its registered I/O are the parameter Win/Api. Win/Choice: the constructors of the default
--     binds, with `winRingCloserSubscriber` (closer_tracking.go).
--   Winrio: the probe for registered I/O and the calls of its functions (winrio/rio_windows.go).
--   Wire: the two sides together: what `coalesceMessages` packs on one side and the network carries
--     over, `splitCoalescedMessages` finds on the other.
--   Channel: the two binds of bindtest/bindtest.go over four channels, as a step relation of any
--     callers in any order.
--   Pingpong: examples/udp_pingpong/main.go: the choice of scenarios, the payloads, the task group,
--     the receive loop, and a session over two binds, which a run in Tests/Playing fills in with
--     those of Channel.
--   Tests: concrete runs.
--
-- Bounds: the loops over control data take the length of the data as fuel, and a proof that this is
-- enough is given for `getGSOSize`; the write loop takes one more than the number of messages, which
-- is enough too. The retries of `Receive` on Windows are up to the network and take any fuel. `Open`
-- retries at most 100 times, as in the source. Slices are values: what two slices of one array see
-- of each other is not modelled, save that the split moves bytes within one message. Lengths are
-- natural numbers; `uint16`, the port and the ring's `uint32` counters keep their wrap. Mutexes are
-- not modelled, and every operation is one step, save in Channel; an operation takes what it gets
-- from a pool as an argument.
--
-- A slice bound or an index out of range is a result of its own, a panic: also of control data beyond
-- its buffer, of a message without a buffer, and of a completion that is longer than its packet.
--
-- The receive loop of the program runs over the list of what its calls give, and a task group over
-- the sequence of its events.
--
-- Not modelled: the system calls, which are parameters; the stubs of other systems; parsing and
-- printing of endpoints, which the libraries do; in the ping-pong program the flags, the clock, the
-- factories of the scenarios and the start of their sessions.
pub mod Prelude
pub mod Slice
pub mod Unix
pub mod Gso
pub mod Linux
pub mod Sticky
pub mod Coalesce
pub mod Split
pub mod Std
pub mod Batching
pub mod Conn
pub mod Write
pub mod Wire
pub mod Channel
pub mod Pingpong
pub mod Win
pub mod Winrio
pub mod Tests
