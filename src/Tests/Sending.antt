-- ===== src/Tests/Sending.antt =====
-- Runs of the writes, on a system whose state is the messages that have been written and which
-- writes one message of a batch at a time.
use batchudp.Prelude.{
  ℕ, zero, suc, ◌≤◌, ◌<◌, ◌≡◌, refl, subst, true, some, none, List, [], ◌∷◌, ◌++◌, length, take,
  drop, arith, replicate,
}
use batchudp.Slice.{Slice, Msg, v6}
use batchudp.Std.{ok, err_closed, Bind, Conn, ReceiveFunc, udp4}
use batchudp.Std.Close.{close_bind}
use batchudp.Std.Receive.{Reader, fails, call}
use batchudp.Std.Receive.Shut.{call-close_bind}
use batchudp.Write.{Writer, send_messages}
use batchudp.Write.Whole.{Sends, Ends, send_messages-Ends}
use batchudp.Std.Send.{fill_ip, fill, send_bind, blackhole_of, conn_of}
use batchudp.Std.Send.Address.{fill_ip-reused}
use batchudp.Std.Send.Reach.{Reaches, sixteen, send_bind-Reaches}
use batchudp.Sticky.{Endpoint}
use batchudp.Batching.Link.{write_batches}
use batchudp.Batching.Link.Delivery as Link
use batchudp.Batching.Link.Delivery.{write_batches-Delivers}
use batchudp.Batching.Pack.{max_payload_len, has_to4}
use batchudp.Gso.Scan.{encode}
use batchudp.Coalesce.Roundtrip.{contents}
use batchudp.Tests.Layout.{cells, cells-UnixLaws}
use batchudp.Tests.Opening.{local, bind}
use batchudp.Tests.Packing.{pooled, dest, pktinfo, pktinfo-IsOther, endpoint, bufs, room}

abbrev first_of : List Msg → ℕ
first_of [] = 0
first_of (m ∷ ms) = 1

abbrev wire : Writer (List Msg)
wire = record {
  write_batch = λ c msgs w. (w ++ take 1 msgs, ok (first_of msgs));
  write_msg = λ c m w. (w ++ (m ∷ []), none);
}

wire-batch :
    (c : Conn) (msgs : List Msg) (w : List Msg) (n : ℕ)
    → (wire.write_batch c msgs w).1 ≡ ok n
    → (n ≤ length msgs)
      × (0 < length msgs → 0 < n)
      × ((wire.write_batch c msgs w).0 ≡ w ++ take n msgs)
wire-batch c [] w zero e = (omega arith, λ h. absurd (omega arith), refl)
wire-batch c [] w (suc n) e = absurd (ground arith)
wire-batch c (m ∷ ms) w n e =
    let one : 1 ≡ n = ground arith in
    subst
      (λ k.
        (k ≤ length (m ∷ ms))
        × (0 < length (m ∷ ms) → 0 < k)
        × (w ++ (m ∷ []) ≡ w ++ take k (m ∷ ms)))
      one (omega arith, λ h. omega arith, refl)

wire-Sends : Sends wire
wire-Sends = record {
  sent = λ w. w;
  batch_ok = wire-batch;
  batch_err = λ c msgs w e h. absurd (ground arith);
  msg_ok = λ c m w h. refl;
  msg_err = λ c m w e h. absurd (ground arith);
}

abbrev pair : List Msg
pair = record pooled { n = 1 } ∷ record pooled { n = 2 } ∷ []

send_messages-Ends_example :
    Ends (λ (w : List Msg). w) [] pair (send_messages wire 1 (some 1) pair [])
unfolding wire-Sends
send_messages-Ends_example = send_messages-Ends wire wire-Sends 1 (some 1) pair []

abbrev v4_bytes : List ℕ
v4_bytes = 127 ∷ 0 ∷ 0 ∷ 1 ∷ []

abbrev v6_bytes : List ℕ
v6_bytes = 32 ∷ 1 ∷ 13 ∷ 184 ∷ replicate 12 1

abbrev address : Slice
address = record { bytes = replicate 16 0; spare = [] }

fill_ip-reused_example :
    (y : Slice) × (fill_ip (v6 v6_bytes) (fill v4_bytes 4 address) ≡ some y)
    × (y.bytes ≡ take 4 v6_bytes ++ drop 4 address.bytes)
fill_ip-reused_example =
    fill_ip-reused v4_bytes v6_bytes address (fill v4_bytes 4 address) refl refl refl
      (unfold fill_ip in refl)

-- an endpoint of IPv6, on a bind that has a socket for it
abbrev far : Endpoint
far = record endpoint { dst = record { addr = v6 v6_bytes; port = 51820 } }

abbrev open6 : Bind
open6 = record bind { ipv6 = some 4; ipv6_pc = some 4; ipv6_tx_offload = true }

send_bind-Reaches_example :
    Reaches cells cells-UnixLaws wire wire-Sends far 4
      (encode cells pktinfo)
      (pktinfo ∷ [])
      refl
      (pktinfo-IsOther, tt)
      refl
      bufs
      open6
      []
      (send_bind cells wire open6 far bufs (pooled ∷ pooled ∷ []) address [])
unfolding blackhole_of conn_of batchudp.Std.new_std_net_bind_with_options
send_bind-Reaches_example =
    send_bind-Reaches cells cells-UnixLaws wire wire-Sends far 4 (encode cells pktinfo)
      (pktinfo ∷ []) refl (pktinfo-IsOther, tt) refl bufs open6 (pooled ∷ pooled ∷ []) address []
      (sixteen v6_bytes refl) refl refl refl
      ((room 0, refl, omega arith), ((room 0, refl, omega arith), tt)) (omega arith)
      (omega arith, (omega arith, tt))

write_batches-Delivers_example :
    Link.Delivers cells
      (λ (w : List Msg). w)
      dest
      65507
      []
      (contents bufs)
      (write_batches cells wire dest 1 bufs true (pooled ∷ pooled ∷ []) [])
unfolding wire-Sends max_payload_len has_to4
write_batches-Delivers_example =
    write_batches-Delivers cells cells-UnixLaws wire wire-Sends dest 1 bufs (pooled ∷ pooled ∷ [])
      [] ((room 0, refl, omega arith), ((room 0, refl, omega arith), tt)) (omega arith)
      (omega arith, (omega arith, tt))

abbrev silent : Reader (List ℕ)
silent = record {
  read_batch = λ c msgs w. (w, ok (0, msgs));
  read_msg = λ c m w. (w, ok m);
  is_up = λ w. some (ok true);
}

abbrev receiver : ReceiveFunc
receiver = record { family = udp4; reader = some 3; conn = 3; rx_offload = true }

call-close_bind_example :
    call cells silent receiver
      (close_bind local (record bind { ipv4 = some 3 }) (3 ∷ [])).1
      bufs
      2
      2
      (pooled ∷ [])
      []
    ≡ ([], fails err_closed)
call-close_bind_example =
    call-close_bind cells local silent receiver (record bind { ipv4 = some 3 }) bufs 2 2
      (pooled ∷ []) (3 ∷ []) []
