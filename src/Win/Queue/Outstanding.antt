-- ===== src/Win/Queue/Outstanding.antt =====
-- The packets of the receive ring that are taken: `Receive` gives one back and takes one again, so
-- that the ring is never pushed beyond its 256 packets.
use batchudp.Prelude.{
  List, ◌≤◌, Bool, true, ℕ, zero, suc, ◌+◌, ◌-◌, ◌<◌, ◌%◌, ◌≡◌, ◌≢◌, refl, ◌∙◌, false, not, Option,
  some, none, [], ◌∷◌, ◌==◌, if◌then◌else◌, arith, inl, inr, ◌⊎◌, Bool-cases,
}
use batchudp.Std.{Err, err_closed, err_no_progress}
use batchudp.Win.Ring.{RingBuffer, push, return_packets}
use batchudp.Win.Ring.Count.{used, IsRing, Pushed, push-Pushed, used-return_packets, used-le}
use batchudp.Win.Api.{Completion, Rio}
use batchudp.Win.Queue.{
  AfWinRingBind, Ended, returns, fails, panics, starves, Received, ended, insert_receive_request,
  spin, wait, next_completion, deliver, receive_again, receive,
}

-- An operation that keeps the number of packets of the receive ring that are taken, and does not
-- panic.
pub record Keeps {W : Type 0} {A : Type 0} (b : AfWinRingBind) (r : W × AfWinRingBind × Ended A)
    : Type 0 where
  pub no_panic : r.2 ≢ panics
  pub same_used : used r.1.rx ≡ used b.rx
  pub still : IsRing r.1.rx
  pub same_tx : r.1.tx ≡ b.tx

-- The system puts at most the bytes of a packet's data into it, which is what a request gives it.
abbrev pub Fits : {W : Type 0} → Rio W → Type 0
Fits {W} rio =
    (cq max : ℕ) (w : W) (r : Completion) (more : List Completion)
    → (rio.dequeue_completion cq max w).1 ≡ r ∷ more
    → r.bytes_transferred ≤ 65507

-- The oldest packet goes back and its slot is taken again.
reused :
    (rb : RingBuffer)
    → IsRing rb
    → 0 < used rb
    → Pushed (return_packets 1 rb) (push (return_packets 1 rb))
      × (used (return_packets 1 rb) + 1 ≡ used rb)
reused rb k pos =
    let r : (used (return_packets 1 rb) ≡ used rb - 1)
        × (((return_packets 1 rb).head % 256) ≡ (rb.head + 1) % 256)
        × IsRing (return_packets 1 rb) =
      used-return_packets rb 1 k (omega arith) (omega arith) in
    (push-Pushed (return_packets 1 rb) r.2 (omega (arith, r.0, used-le rb)), omega (arith, r.0))

pub ended-ne-panics : {A : Type 0} (a : A) (e : Option Err) → ended a e ≢ panics
unfolding ended
ended-ne-panics a none h = ground arith
ended-ne-panics a (some e) h = ground arith

pub Ended-cases :
    {A : Type 0} (x : Ended A)
    → ((a : A) × (x ≡ returns a)) ⊎ ((e : Err) × (x ≡ fails e)) ⊎ (x ≡ panics) ⊎ (x ≡ starves)
Ended-cases (returns a) = inl (a, refl)
Ended-cases (fails e) = inr (inl (e, refl))
Ended-cases panics = inr (inr (inl refl))
Ended-cases starves = inr (inr (inr refl))

module _ {W : Type 0} (rio : Rio W) where
  pub wait-ne-panics : (cq iocp max : ℕ) (w : W) → (wait rio cq iocp max w).1 ≢ panics
  unfolding wait
  wait-ne-panics cq iocp max w h = ground arith

module _ {W : Type 0} (rio : Rio W) (fit : Fits rio) where
  spin-fit :
      (left : ℕ) (again : Bool) (cq : ℕ) (w : W) (r : Completion) (more : List Completion)
      → (spin rio left again cq w).1 ≡ some (r ∷ more)
      → r.bytes_transferred ≤ 65507
  unfolding spin
  spin-fit zero again cq w r more h = ground arith
  spin-fit (suc left) again cq w r more h =
      ground
        (arith, fit cq 1 w r more, spin-fit left true cq (rio.dequeue_completion cq 1 w).0 r more)

  wait-fit :
      (cq iocp max : ℕ) (w : W) (r : Completion) (more : List Completion)
      → (wait rio cq iocp max w).1 ≡ returns (r ∷ more)
      → r.bytes_transferred ≤ 65507
  unfolding wait
  wait-fit cq iocp max w r more h =
      ground (arith, fit cq max (rio.wait_status iocp (rio.notify cq w).0).0 r more)

  next_completion-fit :
      (b : AfWinRingBind) (w : W) (r : Completion) (more : List Completion)
      → (next_completion rio b w).1 ≡ returns (r ∷ more)
      → r.bytes_transferred ≤ 65507
  unfolding next_completion
  next_completion-fit b w r more h = ground (
    arith,
    spin-fit 15 false b.rx.cq w r more,
    wait-fit b.rx.cq b.rx.iocp 1 (spin rio 15 false b.rx.cq w).0 r more,
  )

  reinsert-Keeps :
      (b : AfWinRingBind) (w : W)
      → IsRing b.rx
      → 0 < used b.rx
      → Keeps b (insert_receive_request rio (record b { rx = return_packets 1 b.rx }) w)
  unfolding insert_receive_request
  reinsert-Keeps b w k pos =
      let (p, n) = reused b.rx k pos in
      rw (p.result, insert_receive_request)
        (record {
          no_panic = ended-ne-panics tt (rio.receive_ex b.rq (return_packets 1 b.rx).id p.slot w).1;
          same_used = omega (arith, p.more, n);
          still = p.still;
          same_tx = refl;
        })

  next_completion-ne-panics : (b : AfWinRingBind) (w : W) → (next_completion rio b w).1 ≢ panics
  unfolding next_completion
  next_completion-ne-panics b w h =
      ground (arith, wait-ne-panics rio b.rx.cq b.rx.iocp 1 (spin rio 15 false b.rx.cq w).0)

  unchanged :
      {A : Type 0} (b : AfWinRingBind) (w : W) (x : Ended A)
      → IsRing b.rx
      → x ≢ panics
      → Keeps b (w, b, x)
  unchanged b w x k safe = record { no_panic = safe; same_used = refl; still = k; same_tx = refl }

  fails-ne : {A : Type 0} (e : Err) → ◌≢◌ {A = Ended A} (fails e) panics
  fails-ne e h = ground arith

  deliver-ne-panics :
      (b : AfWinRingBind) (room : ℕ) (r : Completion) (w : W)
      → r.bytes_transferred ≤ 65507
      → deliver rio b room r w ≢ panics
  unfolding deliver
  deliver-ne-panics b room r w small h = ground arith

  Keeps-trans :
      {A B : Type 0} (b b2 : AfWinRingBind) (w : W) (x : Ended A) (r : W × AfWinRingBind × Ended B)
      → Keeps b (w, b2, x)
      → Keeps b2 r
      → Keeps b r
  Keeps-trans b b2 w x r k h = record {
    no_panic = h.no_panic;
    same_used = h.same_used ∙ k.same_used;
    still = h.still;
    same_tx = h.same_tx ∙ k.same_tx;
  }

  ends :
      {A B : Type 0} (b b2 : AfWinRingBind) (w : W) (x : Ended A) (y : Ended B)
      → Keeps b (w, b2, x)
      → y ≢ panics
      → Keeps b (w, b2, y)
  ends b b2 w x y k safe = record {
    no_panic = safe;
    same_used = k.same_used;
    still = k.still;
    same_tx = k.same_tx;
  }

  -- behind a reinsertion that ended with `x`
  reinserted-Keeps :
      (b b2 : AfWinRingBind) (room : ℕ) (r : Completion) (w : W) (x : Ended (Unit {0}))
      (again : W × AfWinRingBind × Ended Received)
      → r.bytes_transferred ≤ 65507
      → Keeps b (w, b2, x)
      → Keeps b2 again
      → Keeps b (elim x as (λ _. W × AfWinRingBind × Ended Received) [
        | fails e ↦ (w, b2, fails e)
        | panics ↦ (w, b2, panics)
        | starves ↦ (w, b2, starves)
        | returns t ↦
            if not (r.status == rio.wsaemsgsize)
            then (w, b2, deliver rio b2 room r w)
            else if not (rio.load_is_open w == 1)
            then (w, b2, fails err_closed)
            else again
      ])
  reinserted-Keeps b b2 room r w (fails e) again small k h =
      ends b b2 w (fails e) (fails e) k (fails-ne e)
  reinserted-Keeps b b2 room r w panics again small k h = absurd (k.no_panic refl)
  reinserted-Keeps b b2 room r w starves again small k h =
      ends b b2 w starves starves k (λ e. ground arith)
  reinserted-Keeps b b2 room r w (returns t) again small k h =
      elim (Bool-cases (r.status == rio.wsaemsgsize)) [
        | inr fine ↦ rw fine (
            ends b b2 w (returns t) (deliver rio b2 room r w) k
              (deliver-ne-panics b2 room r w small))
        | inl large ↦ rw large (elim (Bool-cases (rio.load_is_open w == 1)) [
          | inl live ↦ rw live (Keeps-trans b b2 w (returns t) again k h)
          | inr dead ↦ rw dead (ends b b2 w (returns t) (fails err_closed) k (fails-ne err_closed))
        ])
      ]

  receive_again-Keeps :
      (fuel room : ℕ) (b : AfWinRingBind) (w : W)
      → IsRing b.rx
      → 0 < used b.rx
      → Keeps b (receive_again rio fuel room b w)
  unfolding receive_again
  receive_again-Keeps zero room b w k pos = unchanged b w starves k (λ e. ground arith)
  receive_again-Keeps (suc fuel) room b w k pos = elim (Ended-cases (next_completion rio b w).1) [
    | inr (inl (e, is)) ↦
        rw (is, receive_again) (unchanged b (next_completion rio b w).0 (fails e) k (fails-ne e))
    | inr (inr (inl is)) ↦ absurd (next_completion-ne-panics b w is)
    | inr (inr (inr is)) ↦
        rw (is, receive_again)
          (unchanged b (next_completion rio b w).0 starves k (λ e. ground arith))
    | inl ([], is) ↦
        rw (is, receive_again)
          (unchanged b (next_completion rio b w).0 (fails err_no_progress) k
            (fails-ne err_no_progress))
    | inl (r ∷ more, is) ↦
        rw (is, receive_again)
          (let w1 = (next_completion rio b w).0 in
            let ins : W × AfWinRingBind × Ended (Unit {0}) =
              insert_receive_request rio (record b { rx = return_packets 1 b.rx }) w1 in
            let kept : Keeps b ins = reinsert-Keeps b w1 k pos in
            reinserted-Keeps b ins.1 room r ins.0 ins.2 (receive_again rio fuel room ins.1 ins.0)
              (next_completion-fit b w r more is) kept
              (receive_again-Keeps fuel room ins.1 ins.0 kept.still
                (omega (arith, kept.same_used))))
  ]

  -- On a ring of which at least one packet is taken, and on a system that puts at most 65507 bytes
  -- into a packet, `Receive` never panics, neither on a full ring nor on a slice bound, and keeps the
  -- number of the receive ring's packets that are taken, a well-formed ring, and the transmit ring:
  -- on success, on every error and after every retry.
  pub receive-Keeps :
      (fuel room : ℕ) (b : AfWinRingBind) (w : W)
      → IsRing b.rx
      → 0 < used b.rx
      → Keeps b (receive rio fuel room b w)
  unfolding receive
  receive-Keeps fuel room b w k pos = elim (Bool-cases (rio.load_is_open w == 1)) [
    | inl live ↦ rw live (receive_again-Keeps fuel room b w k pos)
    | inr dead ↦ rw dead (unchanged b w (fails err_closed) k (fails-ne err_closed))
  ]
