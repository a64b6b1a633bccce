-- ===== src/Std/Send/Delivery.antt =====
-- What `Send` puts on the wire, with and without segmentation offload, for a given address.
use batchudp.Prelude.{
  ℕ, ◌+◌, ◌≤◌, ◌≡◌, ◌≢◌, subst, ◌∙◌, Bool, true, false, Option, none, List, [], ◌++◌, length, take,
  map, flat, All, if◌then◌else◌, arith, inl, inr, Bool-cases, append-nil, take-append_add,
}
use batchudp.Slice.{Slice, Msg, UdpAddr}
use batchudp.Unix.{Unix, UnixLaws}
use batchudp.Gso.{set_gso_size}
use batchudp.Gso.Scan.{Cmsg, control, IsOther}
use batchudp.Sticky.{Endpoint, src_bytes}
use batchudp.Coalesce.Laws.{datagrams, IsSendable}
use batchudp.Coalesce.Roundtrip.{Packs, contents, IsNonempty}
use batchudp.Std.{Conn}
use batchudp.Conn.{err_should_disable_udp_gso}
use batchudp.Std.Pack.{
  coalesce_messages, coalesce_messages-Packs, kernel_gso, max_payload_len, IsBlank,
}
use batchudp.Write.{Writer, Written, send_messages}
use batchudp.Write.Whole.{Sends, Ends, whole, part, send_messages-Ends}
use batchudp.Std.Send.{
  SendResult, sends, gso_disabled, send_panics, send_starves, send_result, retry_result,
  should_retry, prepare, attempt_offload, attempt_plain, send_to,
}
use batchudp.Std.Send.Plain.{Prepared, prepare-Prepared, coalesce_messages-IsBlank}

-- On success the datagrams have been written in messages that the kernel accepts; after a refused
-- offload they have all been written behind what the refused attempt wrote; there is neither a
-- panic nor an endless loop.
pub record Delivers {W : Type 0} (u : Unix) (sent : W → List Msg) (ua : UdpAddr) (max_payload : ℕ)
    (before : List Msg) (want : List (List ℕ)) (r : W × Bool × SendResult) : Type 0 where
  pub delivered :
      r.2 ≡ sends
      → (ms : List Msg) × (sent r.0 ≡ before ++ ms)
        × (flat (map (datagrams (kernel_gso u)) ms) ≡ want)
        × All (IsSendable (kernel_gso u) ua max_payload) ms
  pub redelivered :
      r.2 ≡ gso_disabled none
      → (first ms : List Msg) × (sent r.0 ≡ (before ++ first) ++ ms)
        × (flat (map (datagrams (kernel_gso u)) ms) ≡ want)
        × All (IsSendable (kernel_gso u) ua max_payload) ms
  pub no_panic : r.2 ≢ send_panics
  pub no_loop : r.2 ≢ send_starves

module _ {W : Type 0} (u : Unix) (sent : W → List Msg) (ua : UdpAddr) (max_payload : ℕ)
    (want : List (List ℕ)) where
  -- behind a write of all of `ms`
  plain-Delivers :
      (ms before : List Msg) (r : W × Written)
      → Ends sent before ms r
      → flat (map (datagrams (kernel_gso u)) ms) ≡ want
      → All (IsSendable (kernel_gso u) ua max_payload) ms
      → Delivers u sent ua max_payload before want (r.0, false, send_result r.1)
  unfolding send_result
  plain-Delivers ms before (w, x) (whole d s) same fine = rw d (record {
    delivered = λ h. (ms, s, same, fine);
    redelivered = λ h. ground arith;
    no_panic = λ h. ground arith;
    no_loop = λ h. ground arith;
  })
  plain-Delivers ms before (w, x) (part e n d s) same fine = rw d (record {
    delivered = λ h. ground arith;
    redelivered = λ h. ground arith;
    no_panic = λ h. ground arith;
    no_loop = λ h. ground arith;
  })

  -- behind a refused attempt
  retry-Delivers :
      (first ms before : List Msg) (r : W × Written)
      → Ends sent (before ++ first) ms r
      → flat (map (datagrams (kernel_gso u)) ms) ≡ want
      → All (IsSendable (kernel_gso u) ua max_payload) ms
      → Delivers u sent ua max_payload before want (r.0, false, retry_result r.1)
  unfolding retry_result
  retry-Delivers first ms before (w, x) (whole d s) same fine = rw d (record {
    delivered = λ h. ground arith;
    redelivered = λ h. (first, ms, s, same, fine);
    no_panic = λ h. ground arith;
    no_loop = λ h. ground arith;
  })
  retry-Delivers first ms before (w, x) (part e n d s) same fine = rw d (record {
    delivered = λ h. ground arith;
    redelivered = λ h. ground arith;
    no_panic = λ h. ground arith;
    no_loop = λ h. ground arith;
  })

module _ {W : Type 0} (u : Unix) (laws : UnixLaws u) (k : Writer W) (wlaws : Sends k) (ua : UdpAddr)
    (ep : Endpoint) (c : Conn) (pc : Option Conn) (src : List ℕ) (cs : List Cmsg)
    (is_src : src ≡ control u cs) (others : All (IsOther u u.udp_segment) cs)
    (has : src_bytes ep ≡ src) (bufs : List Slice) where
  open wlaws use {sent}

  -- The attempt without offload, on any messages of the pool.
  pub record Plainly (w : W) (r : W × Written) : Type 0 where
    used : List Msg
    ends : Ends sent (sent w) used r
    same : flat (map (datagrams (kernel_gso u)) used) ≡ contents bufs
    fine : All (IsSendable (kernel_gso u) ua (max_payload_len ep)) used

  attempt_plain-Plainly :
      (msgs : List Msg) (w : W)
      → All (IsBlank u src) msgs
      → length bufs ≤ length msgs
      → Plainly w (attempt_plain u k ua ep c pc bufs msgs w)
  unfolding attempt_plain
  attempt_plain-Plainly msgs w blank room =
      let p : Prepared u ua (max_payload_len ep) bufs (prepare ua src bufs msgs) =
        prepare-Prepared u laws ua src cs is_src others (max_payload_len ep) bufs msgs blank room in
      let exact : take (length bufs) (p.used ++ p.left) ≡ p.used =
        take-append_add p.used p.left 0 (length bufs) (omega (arith, p.count))
        ∙ append-nil p.used in
      record {
        used = p.used;
        ends =
            rw (has, p.result, attempt_plain) (rw exact (send_messages-Ends k wlaws c pc p.used w));
        same = p.same;
        fine = p.fine;
      }

  -- The first attempt has ended; the second one is plain.
  tried-Delivers :
      (first : List Msg) (w : W) (r again : W × Written)
      → Ends sent (sent w) first r
      → flat (map (datagrams (kernel_gso u)) first) ≡ contents bufs
      → All (IsSendable (kernel_gso u) ua (max_payload_len ep)) first
      → Plainly r.0 again
      → Delivers u sent ua (max_payload_len ep) (sent w) (contents bufs) (
          if should_retry r.1
          then (again.0, false, retry_result again.1)
          else (r.0, true, send_result r.1))
  unfolding should_retry send_result
  tried-Delivers first w (w1, x) again (whole d s) same fine p = rw d (record {
    delivered = λ h. (first, s, same, fine);
    redelivered = λ h. ground arith;
    no_panic = λ h. ground arith;
    no_loop = λ h. ground arith;
  })
  tried-Delivers first w (w1, x) again (part e n d s) same fine p =
      elim (Bool-cases (err_should_disable_udp_gso e)) [
        | inl retried ↦ rw d (
            rw retried (
              retry-Delivers u sent ua (max_payload_len ep) (contents bufs) (take n first) p.used
                (sent w) again (subst (λ b. Ends sent b p.used again) s p.ends) p.same p.fine))
        | inr final ↦ rw d (
            rw final (record {
              delivered = λ h. ground arith;
              redelivered = λ h. ground arith;
              no_panic = λ h. ground arith;
              no_loop = λ h. ground arith;
            }))
      ]

  -- From the label `retry` on, with `ua` as the address, whether offload is on or off: on success,
  -- what has been written are messages to `ua` that the kernel accepts and cuts into exactly the
  -- caller's datagrams (of at least one byte each), in order; where offload is refused and the second
  -- attempt succeeds, all of them have been written again behind what the first attempt wrote. There
  -- is neither a panic nor an endless loop.
  pub send_to-Delivers :
      (offload : Bool) (msgs : List Msg) (w : W)
      → All (IsBlank u src) msgs
      → length bufs ≤ length msgs
      → IsNonempty bufs
      → Delivers u sent ua
          (max_payload_len ep)
          (sent w)
          (contents bufs)
          (send_to u k ua ep c pc bufs offload msgs w)
  unfolding send_to attempt_offload
  send_to-Delivers false msgs w blank room pos =
      let p : Plainly w (attempt_plain u k ua ep c pc bufs msgs w) =
        attempt_plain-Plainly msgs w blank room in
      plain-Delivers u sent ua (max_payload_len ep) (contents bufs) p.used (sent w)
        (attempt_plain u k ua ep c pc bufs msgs w) p.ends p.same p.fine
  send_to-Delivers true msgs w blank room pos =
      let p : Packs (kernel_gso u) ua (max_payload_len ep) [] (contents bufs)
          (coalesce_messages ua ep bufs msgs (set_gso_size u)) =
        coalesce_messages-Packs u laws ua src cs is_src others ep bufs msgs has blank room pos in
      let exact : take (0 + length p.sent) (p.sent ++ p.left) ≡ p.sent =
        take-append_add p.sent p.left 0 (0 + length p.sent) (omega arith) ∙ append-nil p.sent in
      let kept : All (IsBlank u src) (p.sent ++ p.left)
          × (length (p.sent ++ p.left) ≡ length msgs) =
        coalesce_messages-IsBlank u laws ua src ep bufs msgs (0 + length p.sent) (p.sent ++ p.left)
          has blank p.result in
      rw (p.result, attempt_offload)
        (rw exact (
          tried-Delivers p.sent w (send_messages k c pc p.sent w)
            (attempt_plain u k ua ep c pc bufs (p.sent ++ p.left) (send_messages k c pc p.sent w).0)
            (send_messages-Ends k wlaws c pc p.sent w) p.same p.fine
            (attempt_plain-Plainly (p.sent ++ p.left) (send_messages k c pc p.sent w).0 kept.0
              (omega (arith, kept.1)))))
