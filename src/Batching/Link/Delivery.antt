-- ===== src/Batching/Link/Delivery.antt =====
-- What `WriteBatchTo` puts on the wire with segmentation offload.
use batchudp.Prelude.{
  ℕ, ◌+◌, ◌≤◌, ◌≡◌, ◌≢◌, ◌∙◌, Bool, true, false, some, List, [], ◌++◌, length, take, map, flat, All,
  if◌then◌else◌, arith, inl, inr, Bool-cases, take-append_add, append-nil,
}
use batchudp.Slice.{Slice, Msg, UdpAddr}
use batchudp.Unix.{Unix, UnixLaws}
use batchudp.Coalesce.Roundtrip.{Packs, contents, IsNonempty}
use batchudp.Std.{Conn}
use batchudp.Std.Pack.{kernel_gso}
use batchudp.Write.{Writer, Written, done, failed, panicked, starved, write_all, send_messages}
use batchudp.Write.Whole.{Sends, Ends, whole, part, send_messages-Ends}
use batchudp.Conn.{err_should_disable_udp_gso}
use batchudp.Coalesce.Laws.{datagrams, IsSendable}
use batchudp.Std.Send.{
  SendResult, sends, send_panics, send_starves, send_result, retry_result, should_retry,
}
use batchudp.Batching.Pack.{coalesce_messages, batching-Packs, max_payload_len, IsBlank}
use batchudp.Batching.Link.{attempt_offload, attempt_plain, write_batches}

-- On success, what was written behind `before` are messages that the kernel accepts and that it
-- cuts into the datagrams; without a second attempt there is neither a panic nor an endless loop.
pub record Delivers {W : Type 0} (u : Unix) (sent : W → List Msg) (ua : UdpAddr) (max_payload : ℕ)
    (before : List Msg) (want : List (List ℕ)) (r : W × Bool × SendResult) : Type 0 where
  pub delivered :
      r.2 ≡ sends
      → (ms : List Msg) × (sent r.0 ≡ before ++ ms)
        × (flat (map (datagrams (kernel_gso u)) ms) ≡ want)
        × All (IsSendable (kernel_gso u) ua max_payload) ms
  pub ends : r.1 ≡ true → (r.2 ≢ send_panics) × (r.2 ≢ send_starves)

retry_result-ne-sends : (r : Written) → retry_result r ≢ sends
unfolding retry_result
retry_result-ne-sends done h = ground arith
retry_result-ne-sends (failed e) h = ground arith
retry_result-ne-sends panicked h = ground arith
retry_result-ne-sends starved h = ground arith

module _ {W : Type 0} (u : Unix) (sent : W → List Msg) (ua : UdpAddr) where
  -- behind the first write
  written-Delivers :
      (again : W × Written) (ms : List Msg) (max_payload : ℕ) (before : List Msg)
      (want : List (List ℕ)) (r : W × Written)
      → Ends sent before ms r
      → flat (map (datagrams (kernel_gso u)) ms) ≡ want
      → All (IsSendable (kernel_gso u) ua max_payload) ms
      → Delivers u sent ua max_payload before want (
          if should_retry r.1
          then (again.0, false, retry_result again.1)
          else (r.0, true, send_result r.1))
  unfolding should_retry send_result retry_result
  written-Delivers again ms max_payload before want (w, done) (whole d s) same fine = record {
    delivered = λ h. (ms, s, same, fine);
    ends = λ h. (λ e. ground arith, λ e. ground arith);
  }
  written-Delivers again ms max_payload before want (w, done) (part e n d s) same fine =
      absurd (ground arith)
  written-Delivers again ms max_payload before want (w, failed e) (whole d s) same fine =
      absurd (ground arith)
  written-Delivers again ms max_payload before want (w, panicked) (whole d s) same fine =
      absurd (ground arith)
  written-Delivers again ms max_payload before want (w, panicked) (part e n d s) same fine =
      absurd (ground arith)
  written-Delivers again ms max_payload before want (w, starved) (whole d s) same fine =
      absurd (ground arith)
  written-Delivers again ms max_payload before want (w, starved) (part e n d s) same fine =
      absurd (ground arith)
  written-Delivers again ms max_payload before want (w, failed x) (part e n d s) same fine =
      elim (Bool-cases (err_should_disable_udp_gso x)) [
        | inl retried ↦ rw retried (record {
          delivered = λ h. absurd (retry_result-ne-sends again.1 h);
          ends = λ h. ground arith;
        })
        | inr final ↦ rw final (record {
          delivered = λ h. ground arith;
          ends = λ h. (λ e. ground arith, λ e. ground arith);
        })
      ]

module _ {W : Type 0} (u : Unix) (laws : UnixLaws u) (k : Writer W) (wlaws : Sends k) (ua : UdpAddr)
    (xpc : Conn) where
  open wlaws use {sent}

  write_all-Ends : (msgs : List Msg) (w : W) → Ends sent (sent w) msgs (write_all k xpc msgs w)
  write_all-Ends msgs w = unfold send_messages in send_messages-Ends k wlaws xpc (some xpc) msgs w

  -- The same of `WriteBatchTo`: where it succeeds with offload, the kernel accepts what it has
  -- written, and cuts it into exactly the caller's datagrams (of at least one byte each), in order,
  -- to the address. Without a second attempt it neither panics nor loops.
  pub write_batches-Delivers :
      (bufs : List Slice) (msgs : List Msg) (w : W)
      → All (IsBlank u) msgs
      → length bufs ≤ length msgs
      → IsNonempty bufs
      → Delivers u sent ua
          (max_payload_len ua)
          (sent w)
          (contents bufs)
          (write_batches u k ua xpc bufs true msgs w)
  unfolding write_batches attempt_offload
  write_batches-Delivers bufs msgs w blank room pos =
      let p : Packs (kernel_gso u) ua (max_payload_len ua) [] (contents bufs)
          (coalesce_messages u ua bufs msgs) =
        batching-Packs u laws ua bufs msgs blank room pos in
      let exact : take (0 + length p.sent) (p.sent ++ p.left) ≡ p.sent =
        take-append_add p.sent p.left 0 (0 + length p.sent) (omega arith) ∙ append-nil p.sent in
      rw (p.result, attempt_offload)
        (rw exact (
          written-Delivers u sent ua
            (attempt_plain u k ua xpc bufs (p.sent ++ p.left) (write_all k xpc p.sent w).0) p.sent
            (max_payload_len ua) (sent w) (contents bufs) (write_all k xpc p.sent w)
            (write_all-Ends p.sent w) p.same p.fine))
