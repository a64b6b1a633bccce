-- ===== src/Win/Queue/Sending.antt =====
-- `Send` on the send ring of one family.
use batchudp.Prelude.{
  ℕ, ◌+◌, ◌-◌, ◌<◌, ◌≤◌, ◌%◌, ◌≡◌, ◌≢◌, refl, false, ◌&&◌, Option, some, none, List, length, ltb,
  ◌==◌, if◌then◌else◌, arith, inl, inr, Bool-cases, ltb→lt,
}
use batchudp.Std.{Err, err_closed, err_short_buffer}
use batchudp.Win.Ring.{RingBuffer, push, return_packets}
use batchudp.Win.Ring.Count.{used, IsRing, Pushed, push-Pushed, used-return_packets, used-le}
use batchudp.Win.Api.{WinRingEndpoint, Completion, Rio}
use batchudp.Win.Queue.{
  AfWinRingBind, Ended, returns, fails, panics, starves, ended, wait, send_packet, send,
  bytes_per_packet,
}
use batchudp.Win.Queue.Outstanding.{Ended-cases, wait-ne-panics}

pub record Safe {W : Type 0} {A : Type 0} (b : AfWinRingBind) (r : W × AfWinRingBind × Ended A)
    : Type 0 where
  pub no_panic : r.2 ≢ panics
  pub at_most_one : used r.1.tx ≤ used b.tx + 1
  pub still : IsRing r.1.tx
  pub same_rx : r.1.rx ≡ b.rx

ended-ne : {A : Type 0} (a : A) (e : Option Err) → ended a e ≢ panics
unfolding ended
ended-ne a none h = ground arith
ended-ne a (some e) h = ground arith

-- The ring once `count` completions are given back.
record Freed (count : ℕ) (rb tx1 : RingBuffer) : Type 0 where
  has_room : used tx1 < 256
  no_more : used tx1 ≤ used rb
  formed : IsRing tx1

used-not_full : (rb : RingBuffer) → rb.is_full ≡ false → used rb < 256
unfolding used
used-not_full rb h = ground arith

freed :
    (rb : RingBuffer) (count : ℕ)
    → IsRing rb
    → count ≤ used rb
    → (count ≡ 0 → rb.is_full ≡ false)
    → Freed count rb (if ltb 0 count then return_packets count rb else rb)
freed rb count k le free = elim (Bool-cases (ltb 0 count)) [
  | inl some_done ↦
      let pos : 0 < count = ltb→lt _ _ some_done in
      let r : (used (return_packets count rb) ≡ used rb - count)
          × (((return_packets count rb).head % 256) ≡ (rb.head + count) % 256)
          × IsRing (return_packets count rb) =
        used-return_packets rb count k pos le in
      rw some_done (record {
        has_room = omega (arith, r.0, used-le rb);
        no_more = omega (arith, r.0);
        formed = r.2;
      })
  | inr none_done ↦
      let z : count ≡ 0 = ground arith in
      rw none_done
        (record { has_room = used-not_full rb (free z); no_more = omega arith; formed = k })
]

module _ {W : Type 0} (rio : Rio W) where
  send_packet-Safe :
      (b : AfWinRingBind) (count : ℕ) (buf : List ℕ) (nend : WinRingEndpoint) (w : W)
      → IsRing b.tx
      → count ≤ used b.tx
      → (count ≡ 0 → b.tx.is_full ≡ false)
      → Safe b (send_packet rio b count buf nend w)
  unfolding send_packet
  send_packet-Safe b count buf nend w k le free =
      let f : Freed count b.tx (if ltb 0 count then return_packets count b.tx else b.tx) =
        freed b.tx count k le free in
      let p : Pushed (if ltb 0 count then return_packets count b.tx else b.tx)
          (push (if ltb 0 count then return_packets count b.tx else b.tx)) =
        push-Pushed _ f.formed f.has_room in
      rw (p.result, send_packet)
        (record {
          no_panic = ended-ne tt (rio.send_ex b.rq b.tx.id p.slot nend buf w).1;
          at_most_one = omega (arith, p.more, f.no_more);
          still = p.still;
          same_rx = refl;
        })

  untouched :
      {A : Type 0} (b : AfWinRingBind) (w : W) (x : Ended A)
      → IsRing b.tx
      → x ≢ panics
      → Safe b (w, b, x)
  untouched b w x k safe = record {
    no_panic = safe;
    at_most_one = omega arith;
    still = k;
    same_rx = refl;
  }

  wait-few :
      (cq iocp max n : ℕ)
      → ((w : W) → length (rio.dequeue_completion cq max w).1 ≤ n)
      → (w : W) (more : List Completion) → (wait rio cq iocp max w).1 ≡ returns more
      → (0 < length more) × (length more ≤ n)
  unfolding wait
  wait-few cq iocp max n honest w more h =
      let w2 = (rio.wait_status iocp (rio.notify cq w).0).0 in
      (ground (arith, honest w2), ground (arith, honest w2))

  module _ (b : AfWinRingBind) (buf : List ℕ) (nend : WinRingEndpoint) (k : IsRing b.tx)
      (honest : (w : W) → length (rio.dequeue_completion b.tx.cq 256 w).1 ≤ used b.tx) where
    -- behind the wait
    waited :
        (w : W)
        → Safe b
            (elim (wait rio b.tx.cq b.tx.iocp 256 w).1
              as (λ _. W × AfWinRingBind × Ended (Unit {0})) [
                | fails e ↦ ((wait rio b.tx.cq b.tx.iocp 256 w).0, b, fails e)
                | panics ↦ ((wait rio b.tx.cq b.tx.iocp 256 w).0, b, panics)
                | starves ↦ ((wait rio b.tx.cq b.tx.iocp 256 w).0, b, starves)
                | returns more ↦
                    send_packet rio b (length more) buf nend (wait rio b.tx.cq b.tx.iocp 256 w).0
              ])
    waited w = elim (Ended-cases (wait rio b.tx.cq b.tx.iocp 256 w).1) [
      | inr (inl (e, is)) ↦
          rw is (untouched b (wait rio b.tx.cq b.tx.iocp 256 w).0 (fails e) k (λ e. ground arith))
      | inr (inr (inl is)) ↦ absurd (wait-ne-panics rio b.tx.cq b.tx.iocp 256 w is)
      | inr (inr (inr is)) ↦
          rw is (untouched b (wait rio b.tx.cq b.tx.iocp 256 w).0 starves k (λ e. ground arith))
      | inl (more, is) ↦
          let few : (0 < length more) × (length more ≤ used b.tx) =
            wait-few b.tx.cq b.tx.iocp 256 (used b.tx) honest w more is in
          rw is (
            send_packet-Safe b (length more) buf nend (wait rio b.tx.cq b.tx.iocp 256 w).0 k few.1
              (λ z. absurd (omega (arith, few.0))))
    ]

    -- `Send` never panics on a full ring, where the system completes no more packets than are out:
    -- on a full ring it waits for one, and at most one more packet is out behind it.
    pub send-Safe : (w : W) → Safe b (send rio b buf nend w)
    unfolding send
    send-Safe w = elim (Bool-cases (rio.load_is_open w == 1)) [
      | inr dead ↦ rw dead (untouched b w (fails err_closed) k (λ e. ground arith))
      | inl live ↦ rw live (elim (Bool-cases (ltb bytes_per_packet (length buf))) [
        | inl long ↦ rw long (untouched b w (fails err_short_buffer) k (λ e. ground arith))
        | inr short ↦ rw short (
            let rs = (rio.dequeue_completion b.tx.cq 256 w).1 in
            elim (Bool-cases ((length rs == 0) && b.tx.is_full)) [
              | inl full ↦ rw full (waited (rio.dequeue_completion b.tx.cq 256 w).0)
              | inr free ↦ rw free (
                  send_packet-Safe b (length rs) buf nend (rio.dequeue_completion b.tx.cq 256 w).0 k
                    (honest w) (λ z. ground arith))
            ])
      ])
    ]
