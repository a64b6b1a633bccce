-- ===== src/Std/Send/Reach.antt =====
-- `Send` as a whole: to which address, over which socket, and what becomes of the bind.
use batchudp.Prelude.{
  ℕ, ◌≤◌, ◌≡◌, refl, sym, ap, subst, Bool, true, false, some, List, [], length, All, arith,
}
use batchudp.Slice.{Slice, len, Addr, zero_addr, v4, v6, is6, Msg, UdpAddr}
use batchudp.Unix.{Unix, UnixLaws}
use batchudp.Gso.Scan.{Cmsg, control, IsOther}
use batchudp.Sticky.{Endpoint, src_bytes}
use batchudp.Coalesce.Roundtrip.{contents, IsNonempty}
use batchudp.Std.{Conn, Bind}
use batchudp.Std.Pack.{max_payload_len, IsBlank}
use batchudp.Write.{Writer}
use batchudp.Write.Whole.{Sends}
use batchudp.Std.Send.{
  SendResult, fill, fill_ip, blackhole_of, conn_of, writer_of, offload_of, set_offload, send_to,
  send_bind,
}
use batchudp.Std.Send.Address.{fill-whole}
use batchudp.Std.Send.Delivery.{Delivers, send_to-Delivers}

-- The bytes of an address.
abbrev pub ip_bytes : Addr → List ℕ
ip_bytes (v4 a) = a
ip_bytes (v6 a) = a
ip_bytes zero_addr = []

-- An IPv4 address of 4 bytes or an IPv6 address of 16.
pub data IsAddress : Addr → Type 0 where
  four : (a : List ℕ) → length a ≡ 4 → IsAddress (v4 a)
  sixteen : (a : List ℕ) → length a ≡ 16 → IsAddress (v6 a)

-- The slice that `Send` makes of one with 16 bytes.
record Whole (a : Addr) (ip : Slice) : Type 0 where
  put : Slice
  result : fill_ip a ip ≡ some put
  same : put.bytes ≡ ip_bytes a

fill_ip-Whole : (a : Addr) (ip : Slice) → IsAddress a → len ip ≡ 16 → Whole a ip
unfolding fill_ip
fill_ip-Whole _ ip (four a size) room = record {
  put = fill a 4 ip;
  result = refl;
  same = fill-whole a ip 4 size (omega arith);
}
fill_ip-Whole _ ip (sixteen a size) room = record {
  put = fill a 16 ip;
  result = refl;
  same = fill-whole a ip 16 size (omega arith);
}

offload_of-set : (s : Bind) (six b : Bool) → offload_of (set_offload s six b) six ≡ b
unfolding offload_of set_offload
offload_of-set s true b = refl
offload_of-set s false b = refl

-- where a datagram to an endpoint goes
abbrev pub address_of : Endpoint → UdpAddr
address_of ep = record { ip = ip_bytes ep.dst.addr; udp_port = ep.dst.port }

module _ {W : Type 0} (u : Unix) (laws : UnixLaws u) (k : Writer W) (wlaws : Sends k)
    (ep : Endpoint) (c : Conn) (src : List ℕ) (cs : List Cmsg) (is_src : src ≡ control u cs)
    (others : All (IsOther u u.udp_segment) cs) (has : src_bytes ep ≡ src) (bufs : List Slice) where
  open wlaws use {sent}

  -- The address is that of the endpoint, and the bind has at most given up its offload.
  pub record Reaches (s : Bind) (w : W) (r : W × Bind × Slice × SendResult) : Type 0 where
    pub reaches :
        Delivers u sent
          (address_of ep)
          (max_payload_len ep)
          (sent w)
          (contents bufs)
          (r.0, offload_of r.1 (is6 ep.dst.addr), r.3)
    pub same_bind : r.1 ≡ set_offload s (is6 ep.dst.addr) (offload_of r.1 (is6 ep.dst.addr))

  -- `Send` to an endpoint whose address is IPv4 or IPv6 and whose source is control messages of
  -- which none is a segment size, or nothing, over a writer that keeps its documentation, on a bind
  -- that has a socket for it and no black hole, with pooled messages enough and an address slice of
  -- 16 bytes: where it succeeds, what it has written are messages to the endpoint's address and
  -- port that the kernel accepts and cuts into exactly the caller's datagrams (of at least one byte
  -- each), in order; where offload is refused and the second attempt succeeds, all of them have
  -- been written again behind what the first attempt wrote. `Send` neither panics nor loops, and of
  -- the bind it changes at most the offload flag of that family.
  pub send_bind-Reaches :
      (s : Bind) (msgs : List Msg) (ip : Slice) (w : W)
      → IsAddress ep.dst.addr
      → len ip ≡ 16
      → blackhole_of s (is6 ep.dst.addr) ≡ false
      → conn_of s (is6 ep.dst.addr) ≡ some c
      → All (IsBlank u src) msgs
      → length bufs ≤ length msgs
      → IsNonempty bufs
      → Reaches s w (send_bind u k s ep bufs msgs ip w)
  unfolding send_bind
  send_bind-Reaches s msgs ip w addressed room open_hole found blank enough pos =
      let six = is6 ep.dst.addr in
      let x : Whole ep.dst.addr ip = fill_ip-Whole ep.dst.addr ip addressed room in
      let to : UdpAddr = record { ip = x.put.bytes; udp_port = ep.dst.port } in
      let r = send_to u k to ep c (writer_of s six) bufs (offload_of s six) msgs w in
      let d : Delivers u sent to (max_payload_len ep) (sent w) (contents bufs) r =
        send_to-Delivers u laws k wlaws to ep c (writer_of s six) src cs is_src others has bufs
          (offload_of s six) msgs w blank enough pos in
      let same_to : to ≡ address_of ep =
        ap (λ b. record { ip = b; udp_port = ep.dst.port }) x.same in
      rw (open_hole, found, x.result, send_bind)
        (record {
          reaches = rw (offload_of-set s six r.1) (
              subst (λ a. Delivers u sent a (max_payload_len ep) (sent w) (contents bufs) r) same_to
                d);
          same_bind = ap (set_offload s six) (sym (offload_of-set s six r.1));
        })
