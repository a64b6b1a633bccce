-- ===== src/Win/Queue.antt =====
-- One address family of WinRingBind: `InsertReceiveRequest`, `Receive` and `Send` of
-- `afWinRingBind`.
--
-- `goto retry` in `Receive`, on a packet too large for the ring, is a recursion on fuel; the number
-- of such packets is up to the network.
pub mod Outstanding
pub mod Sending
use batchudp.Prelude.{
  ℕ, zero, suc, ◌+◌, ◌-◌, Bool, true, false, not, ◌&&◌, Option, some, none, List, [], ◌∷◌, ◌++◌,
  length, take, drop, ltb, ◌==◌, if◌then◌else◌,
}
use batchudp.Std.{Err, err_closed, err_short_buffer, err_no_progress, errno}
use batchudp.Win.Ring.{RingBuffer, push, return_packets, packets_per_ring}
use batchudp.Win.Api.{WinRingEndpoint, Completion, Rio}

abbrev pub bytes_per_packet : ℕ
bytes_per_packet = 65507

abbrev pub receive_spins : ℕ
receive_spins = 15

-- `afWinRingBind`
pub record AfWinRingBind : Type 0 where
  pub sock : ℕ
  pub rx : RingBuffer
  pub tx : RingBuffer
  pub rq : ℕ
  pub blackhole : Bool

-- How an operation ends.
pub data Ended {ℓ} (A : Type ℓ) : Type ℓ where
  returns : A → Ended A
  fails : Err → Ended A
  -- `panic("ring is full")`, or a slice bound out of range
  panics : Ended A
  -- out of fuel
  starves : Ended A

pub record Received : Type 0 where
  pub bytes : List ℕ
  pub from : WinRingEndpoint

-- The error of a step, if any, ends the operation.
unfoldable pub ended : {A : Type 0} → A → Option Err → Ended A
ended a none = returns a
ended a (some e) = fails e

module _ {W : Type 0} (rio : Rio W) where
  unfoldable pub insert_receive_request : AfWinRingBind → W → W × AfWinRingBind × Ended (Unit {0})
  insert_receive_request b w = elim (push b.rx) [
    | none ↦ (w, b, panics)
    | some (slot, rx') ↦
        let (w', e) = rio.receive_ex b.rq b.rx.id slot w in (w', record b { rx = rx' }, ended tt e)
  ]

  -- The spinning loop, with what it has left to try: the completions, or a bind that is closed.
  unfoldable pub spin : ℕ → Bool → ℕ → W → W × Option (List Completion)
  spin zero again cq w = (w, some [])
  spin (suc left) again cq w =
      let (w', rs) = rio.dequeue_completion cq 1 w in
      let rest = spin left true cq w' in
      if again && not (rio.load_is_open w == 1)
      then (w, none)
      else elim rs [ [] ↦ rest | r ∷ more ↦ (w', some (r ∷ more)) ]

  -- Waiting for a completion of a queue, of which at most `max` are taken.
  unfoldable pub wait : ℕ → ℕ → ℕ → W → W × Ended (List Completion)
  wait cq iocp max w =
      let (w1, e1) = rio.notify cq w in
      elim e1 [
        | some e ↦ (w1, fails e)
        | none ↦
            let (w2, e2) = rio.wait_status iocp w1 in
            elim e2 [
              | some e ↦ (w2, fails e)
              | none ↦
                  if not (rio.load_is_open w2 == 1)
                  then (w2, fails err_closed)
                  else let (w3, rs) = rio.dequeue_completion cq max w2 in
                    elim rs [
                      | [] ↦ (w3, fails err_no_progress)
                      | r ∷ more ↦ (w3, returns (r ∷ more))
                    ]
            ]
      ]

  -- One completion, spun or waited for.
  unfoldable pub next_completion : AfWinRingBind → W → W × Ended (List Completion)
  next_completion b w =
      let (w1, spun) = spin receive_spins false b.rx.cq w in
      elim spun [
        | none ↦ (w1, fails err_closed)
        | some rs ↦ elim rs [
          | [] ↦ wait b.rx.cq b.rx.iocp 1 w1
          | r ∷ more ↦ (w1, returns (r ∷ more))
        ]
      ]

  -- The completed packet, for a buffer of `room` bytes.
  unfoldable pub deliver : AfWinRingBind → ℕ → Completion → W → Ended Received
  deliver b room r w =
      if not (r.status == 0)
      then fails (errno r.status)
      else if ltb bytes_per_packet r.bytes_transferred
      then panics
      else returns (record {
        bytes =
            take room (take r.bytes_transferred (rio.slot_bytes b.rx.packets r.request_context w));
        from = rio.slot_addr b.rx.packets r.request_context w;
      })

  -- From the label `retry` on.
  unfoldable pub receive_again : ℕ → ℕ → AfWinRingBind → W → W × AfWinRingBind × Ended Received
  receive_again zero room b w = (w, b, starves)
  receive_again (suc fuel) room b w =
      let (w1, got) = next_completion b w in
      elim got [
        | fails e ↦ (w1, b, fails e)
        | panics ↦ (w1, b, panics)
        | starves ↦ (w1, b, starves)
        | returns rs ↦ elim rs [
          | [] ↦ (w1, b, fails err_no_progress)
          | r ∷ more ↦
              let (w2, b2, inserted) =
                insert_receive_request (record b { rx = return_packets 1 b.rx }) w1 in
              let again = receive_again fuel room b2 w2 in
              elim inserted [
                | fails e ↦ (w2, b2, fails e)
                | panics ↦ (w2, b2, panics)
                | starves ↦ (w2, b2, starves)
                | returns t ↦
                    if not (r.status == rio.wsaemsgsize)
                    then (w2, b2, deliver b2 room r w2)
                    else if not (rio.load_is_open w2 == 1)
                    then (w2, b2, fails err_closed)
                    else again
              ]
        ]
      ]

  unfoldable pub receive : ℕ → ℕ → AfWinRingBind → W → W × AfWinRingBind × Ended Received
  receive fuel room b w =
      if not (rio.load_is_open w == 1)
      then (w, b, fails err_closed)
      else receive_again fuel room b w

  -- The packet is put in the ring and given to the system, behind `count` completions.
  unfoldable pub send_packet :
      AfWinRingBind → ℕ → List ℕ → WinRingEndpoint → W → W × AfWinRingBind × Ended (Unit {0})
  send_packet b count buf nend w =
      let tx1 = (if ltb 0 count then return_packets count b.tx else b.tx) in
      elim (push tx1) [
        | none ↦ (w, record b { tx = tx1 }, panics)
        | some (slot, tx2) ↦
            let (w', e) = rio.send_ex b.rq b.tx.id slot nend buf w in
            (w', record b { tx = tx2 }, ended tt e)
      ]

  unfoldable pub send :
      AfWinRingBind → List ℕ → WinRingEndpoint → W → W × AfWinRingBind × Ended (Unit {0})
  send b buf nend w =
      if not (rio.load_is_open w == 1)
      then (w, b, fails err_closed)
      else if ltb bytes_per_packet (length buf)
      then (w, b, fails err_short_buffer)
      else let (w1, rs) = rio.dequeue_completion b.tx.cq packets_per_ring w in
        if (length rs == 0) && b.tx.is_full
        then (let (w2, got) = wait b.tx.cq b.tx.iocp packets_per_ring w1 in
            elim got [
              | fails e ↦ (w2, b, fails e)
              | panics ↦ (w2, b, panics)
              | starves ↦ (w2, b, starves)
              | returns more ↦ send_packet b (length more) buf nend w2
            ])
        else send_packet b (length rs) buf nend w1
