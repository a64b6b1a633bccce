-- ===== src/Batching/Upgrade.antt =====
-- `TryUpgradeToBatchingConn` of batching_conn_linux.go, the batches that its pool makes, and the
-- reads that a batching connection refuses.
use batchudp.Prelude.{
  ℕ, zero, suc, ◌≤◌, ◌≡◌, refl, Bool, true, Option, none, some, List, [], ◌∷◌, length, replicate,
  All, ltb, if◌then◌else◌, arith, length-replicate,
}
use batchudp.Slice.{Slice, Msg, UdpAddr}
use batchudp.Unix.{Unix, UnixLaws}
use batchudp.Gso.{size_of_gso_data}
use batchudp.Std.{Err, other_err, Outcome, err, Family, Conn, ideal_batch_size}
use batchudp.Write.{Writer}
use batchudp.Write.Whole.{Sends}
use batchudp.Coalesce.Roundtrip.{contents, IsNonempty}
use batchudp.Batching.Pack.{IsBlank, max_payload_len}
use batchudp.Batching.Link.{BatchingConn, write_batches}
use batchudp.Batching.Link.Delivery.{Delivers, write_batches-Delivers}

-- `gsoControlSize`, `MinControlMessageSize`
abbrev pub gso_control_size : Unix → ℕ
gso_control_size u = u.cmsg_space size_of_gso_data

-- `ErrSinglePacketReadUnsupported`
abbrev pub err_single_packet_read_unsupported : Err
err_single_packet_read_unsupported = other_err 3

unfoldable pub read_from_udp : BatchingConn → Outcome (List ℕ)
read_from_udp c = err err_single_packet_read_unsupported

-- What is known of the packet connection: whether it already is a BatchingConn, the network where
-- that is one of the two, and the native connection where it is a UDP connection around one.
pub record PacketConn : Type 0 where
  pub is_batching : Bool
  pub network : Option Family
  pub native : Option Conn
  -- `supportsUDPOffload`: transmit, receive
  pub offload : Bool × Bool

pub data Upgraded : Type 0 where
  -- the packet connection itself
  same_conn : Upgraded
  batching : BatchingConn → Upgraded

-- A size that is not positive is 0. A packet connection on a native one is known by its handle.
unfoldable pub try_upgrade_to_batching_conn : PacketConn → ℕ → Upgraded
try_upgrade_to_batching_conn p size = if p.is_batching then same_conn else elim p.network [
  | none ↦ same_conn
  | some f ↦ elim p.native [
    | none ↦ same_conn
    | some c ↦ batching (record {
      xpc = c;
      rx_offload = p.offload.1;
      tx_offload = p.offload.0;
      batch_size = if ltb 0 size then size else ideal_batch_size;
    })
  ]
]

module _ (u : Unix) where
  abbrev pub new_addr : UdpAddr
  new_addr = record { ip = replicate 16 0; udp_port = 0 }

  abbrev pub new_msg : Msg
  new_msg = record {
    buffers = record { bytes = []; spare = [] } ∷ [];
    oob = record { bytes = []; spare = replicate (gso_control_size u) 0 };
    addr = some new_addr;
    n = 0;
    nn = 0;
  }

  -- a batch that the pool makes
  unfoldable pub new_batch : ℕ → List Msg
  new_batch batch_size = replicate batch_size new_msg

  new_msg-IsBlank : IsBlank u new_msg
  new_msg-IsBlank = (
    record { bytes = []; spare = [] },
    refl,
    omega (arith, length-replicate (gso_control_size u) zero),
  )

  new_batch-IsBlank : (n : ℕ) → All (IsBlank u) (new_batch n)
  unfolding new_batch
  new_batch-IsBlank zero = tt
  new_batch-IsBlank (suc n) = (new_msg-IsBlank, new_batch-IsBlank n)

  length-new_batch : (n : ℕ) → length (new_batch n) ≡ n
  unfolding new_batch
  length-new_batch n = length-replicate n new_msg

  -- A batch as the pool makes it is enough for `WriteBatchTo` of up to the batch size.
  new_batch-Delivers :
      {W : Type 0} (laws : UnixLaws u) (k : Writer W) (wlaws : Sends k) (ua : UdpAddr)
      (c : BatchingConn) (bufs : List Slice) (w : W)
      → length bufs ≤ c.batch_size
      → IsNonempty bufs
      → Delivers u wlaws.sent ua
          (max_payload_len ua)
          (wlaws.sent w)
          (contents bufs)
          (write_batches u k ua c.xpc bufs true (new_batch c.batch_size) w)
  new_batch-Delivers laws k wlaws ua c bufs w few pos =
      write_batches-Delivers u laws k wlaws ua c.xpc bufs (new_batch c.batch_size) w
        (new_batch-IsBlank c.batch_size) (omega (arith, few, length-new_batch c.batch_size)) pos
