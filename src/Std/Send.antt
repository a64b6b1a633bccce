-- ===== src/Std/Send.antt =====
-- `Send` of bind_std.go: the address, the black hole, the attempt with segmentation offload and the
-- one that is made again without it.
pub mod Address
pub mod Delivery
pub mod Reach
pub mod Plain
use batchudp.Prelude.{
  ℕ, zero, suc, Bool, true, false, Option, some, none, List, [], ◌∷◌, length, take, set,
  if◌then◌else◌,
}
use batchudp.Unix.{Unix}
use batchudp.Slice.{Slice, Addr, zero_addr, v4, v6, is6, reslice, set_first, Msg, UdpAddr}
use batchudp.Gso.{set_gso_size}
use batchudp.Sticky.{Endpoint, src_bytes, set_src_control, copy_at}
use batchudp.Conn.{err_should_disable_udp_gso}
use batchudp.Std.{Err, eafnosupport, Conn, Bind}
use batchudp.Std.Pack.{coalesce_messages}
use batchudp.Write.{Writer, Written, done, failed, panicked, starved, send_messages}

-- `copy(ua.IP, as[:])`, `ua.IP = ua.IP[:n]`, on the address slice of the pool
unfoldable pub fill : List ℕ → ℕ → Slice → Slice
fill bs n ip = reslice (record ip { bytes = copy_at ip.bytes 0 bs }) n

-- `none` is the panic of `As4` on the zero address.
unfoldable pub fill_ip : Addr → Slice → Option Slice
fill_ip (v6 bs) ip = some (fill bs 16 ip)
fill_ip (v4 bs) ip = some (fill bs 4 ip)
fill_ip zero_addr ip = none

pub data SendResult : Type 0 where
  sends : SendResult
  send_fails : Err → SendResult
  -- `ErrUDPGSODisabled`, with the error of the second attempt
  gso_disabled : Option Err → SendResult
  send_panics : SendResult
  send_starves : SendResult

unfoldable pub send_result : Written → SendResult
send_result done = sends
send_result (failed e) = send_fails e
send_result panicked = send_panics
send_result starved = send_starves

unfoldable pub retry_result : Written → SendResult
retry_result done = gso_disabled none
retry_result (failed e) = gso_disabled (some e)
retry_result panicked = send_panics
retry_result starved = send_starves

unfoldable pub should_retry : Written → Bool
should_retry (failed e) = err_should_disable_udp_gso e
should_retry _ = false

-- One message for each datagram; `none` where the messages run out, or a message has no buffer.
unfoldable pub prepare : UdpAddr → List ℕ → List Slice → List Msg → Option (List Msg)
prepare addr src [] msgs = some msgs
prepare addr src (b ∷ bs) [] = none
prepare addr src (b ∷ bs) (m ∷ ms) = elim (set_first m.buffers b) [
  | none ↦ none
  | some buffers ↦ elim (prepare addr src bs ms) [
    | none ↦ none
    | some rest ↦
        some
          (record m { addr = some addr; buffers = buffers; oob = set_src_control m.oob src } ∷ rest)
  ]
]

-- Whether IPv4 or IPv6, with what the bind has of the family.
unfoldable pub blackhole_of : Bind → Bool → Bool
blackhole_of s six = if six then s.blackhole6 else s.blackhole4

unfoldable pub conn_of : Bind → Bool → Option Conn
conn_of s six = if six then s.ipv6 else s.ipv4

unfoldable pub writer_of : Bind → Bool → Option Conn
writer_of s six = if six then s.ipv6_pc else s.ipv4_pc

unfoldable pub offload_of : Bind → Bool → Bool
offload_of s six = if six then s.ipv6_tx_offload else s.ipv4_tx_offload

unfoldable pub set_offload : Bind → Bool → Bool → Bind
set_offload s six b =
    if six then record s { ipv6_tx_offload = b } else record s { ipv4_tx_offload = b }

module _ {W : Type 0} (u : Unix) (k : Writer W) (ua : UdpAddr) (ep : Endpoint) (c : Conn)
    (pc : Option Conn) (bufs : List Slice) where
  -- The messages behind the attempt, the system, and the outcome.
  unfoldable pub attempt_offload : List Msg → W → List Msg × W × Written
  attempt_offload msgs w = elim (coalesce_messages ua ep bufs msgs (set_gso_size u)) [
    | none ↦ (msgs, w, panicked)
    | some (n, ms) ↦ (let (w', r) = send_messages k c pc (take n ms) w in (ms, w', r))
  ]

  unfoldable pub attempt_plain : List Msg → W → W × Written
  attempt_plain msgs w = elim (prepare ua (src_bytes ep) bufs msgs) [
    | none ↦ (w, panicked)
    | some ms ↦ send_messages k c pc (take (length bufs) ms) w
  ]

  -- From the label `retry` on: the system, whether offload is still on, and the result.
  unfoldable pub send_to : Bool → List Msg → W → W × Bool × SendResult
  send_to false msgs w = let (w1, r) = attempt_plain msgs w in (w1, false, send_result r)
  send_to true msgs w =
      let (ms, w1, r) = attempt_offload msgs w in
      let (w2, r2) = attempt_plain ms w1 in
      if should_retry r then (w2, false, retry_result r2) else (w1, true, send_result r)

module _ {W : Type 0} (u : Unix) (k : Writer W) where
  -- `msgs` and `ip` are the messages and the address slice from the pools; the slice that goes back
  -- is returned.
  unfoldable pub send_bind :
      Bind → Endpoint → List Slice → List Msg → Slice → W → W × Bind × Slice × SendResult
  send_bind s ep bufs msgs ip w =
      let six = is6 ep.dst.addr in
      if blackhole_of s six then (w, s, ip, sends) else elim (conn_of s six) [
        | none ↦ (w, s, ip, send_fails eafnosupport)
        | some c ↦ elim (fill_ip ep.dst.addr ip) [
          | none ↦ (w, s, ip, send_panics)
          | some ip' ↦
              let (w', still, r) =
                send_to u k (record { ip = ip'.bytes; udp_port = ep.dst.port }) ep c
                  (writer_of s six) bufs (offload_of s six) msgs w in
              (w', set_offload s six still, ip', r)
        ]
      ]
