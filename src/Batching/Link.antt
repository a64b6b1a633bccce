-- ===== src/Batching/Link.antt =====
-- `linuxBatchingConn` of batching_conn_linux.go: `ReadBatch`, `WriteBatchTo`, `putSendBatch`.
pub mod Delivery
pub mod Retry
use batchudp.Prelude.{
  ℕ, zero, suc, ◌-◌, Bool, true, false, not, ◌&&◌, ◌||◌, Option, some, none, List, [], ◌∷◌, ◌++◌,
  length, take, drop, set, ltb, ◌==◌, if◌then◌else◌, map,
}
use batchudp.Unix.{Unix}
use batchudp.Slice.{set_first, Slice, Addr, AddrPort, UdpAddr, Msg, reslice}
use batchudp.Gso.{get_gso_size}
use batchudp.Split.{SplitResult, split, failed, panicked, split_coalesced_messages}
use batchudp.Std.{Err, other_err, Outcome, ok, err, Conn}
use batchudp.Std.Receive.{Reader, extend_oob, split_error}
use batchudp.Std.Send.{
  SendResult, send_fails, send_panics, sends, send_result, retry_result, should_retry, fill_ip,
}
use batchudp.Write
use batchudp.Write.{Writer, Written, done, write_all}
use batchudp.Batching.Pack.{coalesce_messages}

-- `linuxBatchingConn`
pub record BatchingConn : Type 0 where
  pub xpc : Conn
  pub rx_offload : Bool
  pub tx_offload : Bool
  pub batch_size : ℕ

-- How a `ReadBatch` ends: the number it returns, and the messages.
pub data Read : Type 0 where
  reads : ℕ → List Msg → Read
  read_fails : Err → List Msg → Read
  read_panics : Read

-- `ErrBatchTooLarge`
abbrev pub err_batch_too_large : Err
err_batch_too_large = other_err 0

unfoldable pub of_split : SplitResult → Read
of_split (split n ms) = reads n ms
of_split (failed n e ms) = read_fails (split_error e) ms
of_split panicked = read_panics

-- `putSendBatch`
unfoldable pub put_send_batch : List Msg → List Msg
put_send_batch = map (λ (m : Msg). record {
  buffers = take 1 m.buffers;
  oob = reslice m.oob 0;
  addr = none;
  n = 0;
  nn = 0;
})

-- One message for each datagram, without control data.
unfoldable pub plain : UdpAddr → List Slice → List Msg → Option (List Msg)
plain addr [] msgs = some msgs
plain addr (b ∷ bs) [] = none
plain addr (b ∷ bs) (m ∷ ms) = elim (set_first m.buffers b) [
  | none ↦ none
  | some buffers ↦ elim (plain addr bs ms) [
    | none ↦ none
    | some rest ↦
        some (record m { buffers = buffers; addr = some addr; oob = reslice m.oob 0 } ∷ rest)
  ]
]

module _ (u : Unix) {W : Type 0} where
  unfoldable pub read_batch : Reader W → BatchingConn → List Msg → W → W × Read
  read_batch k c [] w = (w, reads 0 [])
  read_batch k c (m ∷ ms) w =
      let msgs = m ∷ ms in
      if not c.rx_offload || ltb (length msgs) 2
      then (let (w', r) = k.read_batch c.xpc (map extend_oob msgs) w in
          elim r [ err e ↦ (w', read_fails e msgs) | ok (n, after) ↦ (w', reads n after) ])
      else let read_at = length msgs - 2 in
        let (w', r) = k.read_batch c.xpc (map extend_oob (drop read_at msgs)) w in
        elim r [
          | err e ↦ (w', read_fails e msgs)
          | ok (n, after) ↦ if n == 0 then (w', reads 0 (take read_at msgs ++ after)) else (
            w',
            of_split
                (split_coalesced_messages (get_gso_size u) (take read_at msgs ++ after) read_at),
          )
        ]

  module _ (k : Writer W) (ua : UdpAddr) (xpc : Conn) (bufs : List Slice) where
    unfoldable pub attempt_offload : List Msg → W → List Msg × W × Written
    attempt_offload msgs w = elim (coalesce_messages u ua bufs msgs) [
      | none ↦ (msgs, w, Write.panicked)
      | some (n, ms) ↦ (let (w', r) = write_all k xpc (take n ms) w in (ms, w', r))
    ]

    unfoldable pub attempt_plain : List Msg → W → W × Written
    attempt_plain msgs w = elim (plain ua bufs msgs) [
      | none ↦ (w, Write.panicked)
      | some ms ↦ write_all k xpc (take (length bufs) ms) w
    ]

    -- From the label `retry` on: the system, `txOffload`, and the result.
    unfoldable pub write_batches : Bool → List Msg → W → W × Bool × SendResult
    write_batches false msgs w = let (w1, r) = attempt_plain msgs w in (w1, false, send_result r)
    write_batches true msgs w =
        let (ms, w1, r) = attempt_offload msgs w in
        let (w2, r2) = attempt_plain ms w1 in
        if should_retry r then (w2, false, retry_result r2) else (w1, true, send_result r)

  -- `msgs` and `ip` are the messages and the address slice of the batch from the pool.
  unfoldable pub write_batch_to :
      Writer W
      → BatchingConn
      → List Slice
      → AddrPort
      → List Msg
      → Slice
      → W
      → W × BatchingConn × SendResult
  write_batch_to k c bufs to msgs ip w =
      if ltb c.batch_size (length bufs)
      then (w, c, send_fails err_batch_too_large)
      else if length bufs == 0
      then (w, c, sends)
      else elim (fill_ip to.addr ip) [
        | none ↦ (w, c, send_panics)
        | some ip' ↦
            let (w', still, r) =
              write_batches k (record { ip = ip'.bytes; udp_port = to.port }) c.xpc bufs
                c.tx_offload msgs w in
            (w', record c { tx_offload = still }, r)
      ]
