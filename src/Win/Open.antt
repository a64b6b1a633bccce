-- ===== src/Win/Open.antt =====
-- `Open`, `Close` and the teardown of WinRingBind in bind_windows.go.
pub mod Closed
pub mod Filled
use batchudp.Prelude.{
  ℕ, zero, suc, ◌+◌, ◌%◌, ◌^◌, Bool, true, false, not, ◌&&◌, Option, some, none, List, ◌==◌,
  if◌then◌else◌,
}
use batchudp.Std.{Err, err_bind_already_open, err_closed}
use batchudp.Win.Ring.{RingBuffer, packets_per_ring}
use batchudp.Win.Api.{Rio}
use batchudp.Win.Queue.{
  AfWinRingBind, Ended, returns, fails, panics, starves, insert_receive_request,
}

-- `WinRingBind`: whether it has a subscriber, and a function to unsubscribe. `isOpen` is part of
-- the system's state.
pub record WinRingBind : Type 0 where
  pub v4 : AfWinRingBind
  pub v6 : AfWinRingBind
  pub subscriber : Bool
  pub unsubscribe : Bool

-- A handle that is not 0 is closed.
unfoldable pub release {ℓ} : {W : Type ℓ} → (ℕ → W → W) → ℕ → W → W
release close h w = if h == 0 then w else close h w

-- The fields of a ring behind `CloseAndZero`, and of a family.
unfoldable pub zero_ring : RingBuffer
zero_ring = record { packets = 0; head = 0; tail = 0; id = 0; iocp = 0; is_full = false; cq = 0 }

unfoldable pub zero_family : AfWinRingBind → AfWinRingBind
zero_family b = record b { sock = 0; rx = zero_ring; tx = zero_ring; blackhole = false }

module _ {W : Type 0} (rio : Rio W) where
  unfoldable pub close_ring : RingBuffer → W → W
  close_ring r w =
      let w1 = release rio.close_completion_queue r.cq w in
      let w2 = release rio.close_handle r.iocp w1 in
      let w3 = release rio.deregister_buffer r.id w2 in release rio.virtual_free r.packets w3

  unfoldable pub close_family : AfWinRingBind → W → W
  close_family b w = release rio.close_handle b.sock (close_ring b.tx (close_ring b.rx w))

  unfoldable pub close_and_zero : WinRingBind → W → W × WinRingBind
  close_and_zero b w =
      let w1 = rio.store_is_open 0 w in
      let w2 = (if b.unsubscribe then rio.unsubscribe w1 else w1) in
      (
        close_family b.v6 (close_family b.v4 w2),
        record b { v4 = zero_family b.v4; v6 = zero_family b.v6; unsubscribe = false },
      )

  unfoldable pub open_ring : RingBuffer → W → W × RingBuffer × Option Err
  open_ring r w =
      let (w1, packets, e1) = rio.virtual_alloc w in
      let r1 = record r { packets = packets } in
      elim e1 [
        | some e ↦ (w1, r1, some e)
        | none ↦
            let (w2, id, e2) = rio.register_pointer packets w1 in
            let r2 = record r1 { id = id } in
            elim e2 [
              | some e ↦ (w2, r2, some e)
              | none ↦
                  let (w3, iocp, e3) = rio.create_completion_port w2 in
                  let r3 = record r2 { iocp = iocp } in
                  elim e3 [
                    | some e ↦ (w3, r3, some e)
                    | none ↦
                        let (w4, cq, e4) = rio.create_completion_queue iocp w3 in
                        (w4, record r3 { cq = cq }, e4)
                  ]
            ]
      ]

  -- `CreateRequestQueue`, `Bind` and `Getsockname`, behind the two rings
  unfoldable pub bind_family : ℕ → ℕ → AfWinRingBind → W → W × AfWinRingBind × Ended ℕ
  bind_family family port b w =
      let (w1, rq, e1) = rio.create_request_queue b.sock b.rx.cq b.tx.cq w in
      let b1 = record b { rq = rq } in
      elim e1 [
        | some e ↦ (w1, b1, fails e)
        | none ↦
            let (w2, e2) = rio.bind_to b.sock family port w1 in
            elim e2 [
              | some e ↦ (w2, b1, fails e)
              | none ↦
                  let (p, e3) = rio.sock_port b.sock w2 in
                  elim e3 [ some e ↦ (w2, b1, fails e) | none ↦ (w2, b1, returns p) ]
            ]
      ]

  unfoldable pub open_family : ℕ → ℕ → AfWinRingBind → W → W × AfWinRingBind × Ended ℕ
  open_family family port b w =
      let (w1, sock, e1) = rio.socket family w in
      let b1 = record b { sock = sock } in
      elim e1 [
        | some e ↦ (w1, b1, fails e)
        | none ↦
            let (w2, rx, e2) = open_ring b.rx w1 in
            let b2 = record b1 { rx = rx } in
            elim e2 [
              | some e ↦ (w2, b2, fails e)
              | none ↦
                  let (w3, tx, e3) = open_ring b.tx w2 in
                  let b3 = record b2 { tx = tx } in
                  elim e3 [ some e ↦ (w3, b3, fails e) | none ↦ bind_family family port b3 w3 ]
            ]
      ]

  -- The loop that fills the two receive rings.
  unfoldable pub insert_requests : ℕ → WinRingBind → W → W × WinRingBind × Ended (Unit {0})
  insert_requests zero b w = (w, b, returns tt)
  insert_requests (suc left) b w =
      let (w1, v4', r4) = insert_receive_request rio b.v4 w in
      let b1 = record b { v4 = v4' } in
      let (w2, v6', r6) = insert_receive_request rio b.v6 w1 in
      let b2 = record b1 { v6 = v6' } in
      let rest = insert_requests left b2 w2 in
      elim r4 [
        | fails e ↦ (w1, b1, fails e)
        | panics ↦ (w1, b1, panics)
        | starves ↦ (w1, b1, starves)
        | returns t ↦ elim r6 [
          | fails e ↦ (w2, b2, fails e)
          | panics ↦ (w2, b2, panics)
          | starves ↦ (w2, b2, starves)
          | returns t ↦ rest
        ]
      ]

  -- Behind the receive rings: the subscription, and the bind is open.
  unfoldable pub announce : ℕ → WinRingBind → W → W × WinRingBind × Ended ℕ
  announce port b w =
      if b.subscriber
      then (let (w1, e) = rio.subscribe_closer w in
          elim e [
            | some x ↦ (w1, b, fails x)
            | none ↦
                (rio.store_is_open 1 w1, record b { unsubscribe = true }, returns (port % 2 ^ 16))
          ])
      else (rio.store_is_open 1 w, b, returns (port % 2 ^ 16))

  -- `Open` up to its deferred call.
  unfoldable pub open_both : ℕ → WinRingBind → W → W × WinRingBind × Ended ℕ
  open_both port b w =
      if not (rio.load_is_open w == 0)
      then (w, b, fails err_bind_already_open)
      else let (w1, v4', r4) = open_family rio.af_inet port b.v4 w in
        let b1 = record b { v4 = v4' } in
        elim r4 [
          | fails e ↦ (w1, b1, fails e)
          | panics ↦ (w1, b1, panics)
          | starves ↦ (w1, b1, starves)
          | returns p4 ↦
              let (w2, v6', r6) = open_family rio.af_inet6 p4 b.v6 w1 in
              let b2 = record b1 { v6 = v6' } in
              elim r6 [
                | fails e ↦ (w2, b2, fails e)
                | panics ↦ (w2, b2, panics)
                | starves ↦ (w2, b2, starves)
                | returns p6 ↦
                    let (w3, b3, filled) = insert_requests packets_per_ring b2 w2 in
                    elim filled [
                      | fails e ↦ (w3, b3, fails e)
                      | panics ↦ (w3, b3, panics)
                      | starves ↦ (w3, b3, starves)
                      | returns t ↦ announce p6 b3 w3
                    ]
              ]
        ]

  -- The deferred `if err != nil { bind.closeAndZero() }`.
  unfoldable pub clean_up : W × WinRingBind × Ended ℕ → W × WinRingBind × Ended ℕ
  clean_up (w, b, r) = elim r [
    | fails e ↦ (let (w', b') = close_and_zero b w in (w', b', fails e))
    | returns p ↦ (w, b, returns p)
    | panics ↦ (w, b, panics)
    | starves ↦ (w, b, starves)
  ]

  unfoldable pub open_win : ℕ → WinRingBind → W → W × WinRingBind × Ended ℕ
  open_win port b w = clean_up (open_both port b w)

  unfoldable pub close_win : WinRingBind → W → W × WinRingBind
  close_win b w =
      if not (rio.load_is_open w == 1)
      then (w, b)
      else let w1 = rio.store_is_open 2 w in
        let w2 = rio.post_status b.v4.rx.iocp w1 in
        let w3 = rio.post_status b.v4.tx.iocp w2 in
        let w4 = rio.post_status b.v6.rx.iocp w3 in
        let w5 = rio.post_status b.v6.tx.iocp w4 in close_and_zero b w5
