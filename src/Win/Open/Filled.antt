-- ===== src/Win/Open/Filled.antt =====
-- What `Open` makes of the two receive rings, and what it leaves on an error.
use batchudp.Prelude.{
  ◌++◌, ℕ, zero, suc, ◌+◌, ◌<◌, ◌≤◌, ◌≡◌, ◌≢◌, refl, sym, subst, false, arith, inl, inr,
  Option-cases, Bool-cases, ◌==◌,
}
use batchudp.Std.{Err, err_bind_already_open}
use batchudp.Win.Ring.{RingBuffer, push}
use batchudp.Win.Ring.Count.{used, IsRing, Pushed, push-Pushed}
use batchudp.Win.Api.{Rio}
use batchudp.Win.Queue.{
  AfWinRingBind, Ended, returns, fails, panics, starves, insert_receive_request,
}
use batchudp.Win.Queue.Outstanding.{Ended-cases, ended-ne-panics}
use batchudp.Win.Open.Closed.{Closings, bind_holds, closed-close_and_zero}
use batchudp.Win.Open.{
  WinRingBind, zero_ring, zero_family, close_and_zero, open_ring, bind_family, open_family,
  insert_requests, announce, open_both, clean_up, open_win,
}

-- `n` packets of a ring are taken.
abbrev pub Out : ℕ → RingBuffer → Type 0
Out n rb = IsRing rb × (used rb ≡ n)

-- A family whose socket, rings and flag are reset; `CloseAndZero` leaves `rq` as it is.
abbrev pub IsZeroed : AfWinRingBind → Type 0
IsZeroed b = (b.sock ≡ 0) × (b.rx ≡ zero_ring) × (b.tx ≡ zero_ring) × (b.blackhole ≡ false)

pub zero_ring-Out : Out 0 zero_ring
unfolding zero_ring used
zero_ring-Out =
    (record { small_head = omega arith; small_tail = omega arith; full_lem = λ e. refl }, refl)

module _ {W : Type 0} (rio : Rio W) where
  open_ring-Out : (n : ℕ) (r : RingBuffer) (w : W) → Out n r → Out n (open_ring rio r w).1
  unfolding open_ring used
  open_ring-Out n r w (k, h) = (
    record {
      small_head = ground (arith, k.small_head);
      small_tail = ground (arith, k.small_tail);
      full_lem = λ e. ground (arith, k.full_lem);
    },
    ground arith,
  )

  bind_family-rx :
      (family port : ℕ) (b : AfWinRingBind) (w : W) → (bind_family rio family port b w).1.rx ≡ b.rx
  unfolding bind_family
  bind_family-rx family port b w = ground arith

  insert-Out :
      (n : ℕ) (b : AfWinRingBind) (w : W)
      → n < 256
      → Out n b.rx
      → Out (n + 1) (insert_receive_request rio b w).1.rx
        × ((insert_receive_request rio b w).2 ≢ panics)
  unfolding insert_receive_request
  insert-Out n b w small (k, h) =
      let p : Pushed b.rx (push b.rx) = push-Pushed b.rx k (omega arith) in
      rw (p.result, insert_receive_request)
        (
          (p.still, omega (arith, p.more)),
          ended-ne-panics tt (rio.receive_ex b.rq b.rx.id p.slot w).1,
        )

  pub record Fills (n : ℕ) (r : W × WinRingBind × Ended (Unit {0})) : Type 0 where
    pub no_panic : r.2 ≢ panics
    pub filled : r.2 ≡ returns tt → Out n r.1.v4.rx × Out n r.1.v6.rx

  insert_requests-Fills :
      (left n m : ℕ) (b : WinRingBind) (w : W)
      → n + left ≡ m
      → m ≤ 256
      → Out n b.v4.rx
      → Out n b.v6.rx
      → Fills m (insert_requests rio left b w)
  unfolding insert_requests
  insert_requests-Fills zero n m b w e le o4 o6 = record {
    no_panic = λ h. ground arith;
    filled = λ h.
        (subst (λ k. Out k b.v4.rx) (omega arith) o4, subst (λ k. Out k b.v6.rx) (omega arith) o6);
  }
  insert_requests-Fills (suc left) n m b w e le o4 o6 =
      let w1 = (insert_receive_request rio b.v4 w).0 in
      let i4 : Out (n + 1) (insert_receive_request rio b.v4 w).1.rx
          × ((insert_receive_request rio b.v4 w).2 ≢ panics) =
        insert-Out n b.v4 w (omega arith) o4 in
      let i6 : Out (n + 1) (insert_receive_request rio b.v6 w1).1.rx
          × ((insert_receive_request rio b.v6 w1).2 ≢ panics) =
        insert-Out n b.v6 w1 (omega arith) o6 in
      elim (Ended-cases (insert_receive_request rio b.v4 w).2) [
        | inr (inl (x, is)) ↦
            rw (is, insert_requests)
              (record { no_panic = λ h. ground arith; filled = λ h. ground arith })
        | inr (inr (inl is)) ↦ absurd (i4.1 is)
        | inr (inr (inr is)) ↦
            rw (is, insert_requests)
              (record { no_panic = λ h. ground arith; filled = λ h. ground arith })
        | inl (t, is) ↦ elim (Ended-cases (insert_receive_request rio b.v6 w1).2) [
          | inr (inl (x, is6)) ↦
              rw (is, is6, insert_requests)
                (record { no_panic = λ h. ground arith; filled = λ h. ground arith })
          | inr (inr (inl is6)) ↦ absurd (i6.1 is6)
          | inr (inr (inr is6)) ↦
              rw (is, is6, insert_requests)
                (record { no_panic = λ h. ground arith; filled = λ h. ground arith })
          | inl (t6, is6) ↦
              rw (is, is6, insert_requests)
                (insert_requests-Fills left (n + 1) m
                  (record b {
                    v4 = (insert_receive_request rio b.v4 w).1;
                    v6 = (insert_receive_request rio b.v6 w1).1;
                  })
                  (insert_receive_request rio b.v6 w1).0 (omega arith) le i4.0 i6.0)
        ]
      ]

  open_family-Out :
      (n family port : ℕ) (b : AfWinRingBind) (w : W)
      → Out n b.rx
      → Out n (open_family rio family port b w).1.rx
  unfolding open_family
  open_family-Out n family port b w o =
      let w1 = (rio.socket family w).0 in
      let rx = open_ring rio b.rx w1 in
      let tx = open_ring rio b.tx rx.0 in
      let b3 : AfWinRingBind = record b { sock = (rio.socket family w).1; rx = rx.1; tx = tx.1 } in
      elim (Option-cases (rio.socket family w).2) [
        | inr (x, is) ↦ rw (is, open_family) o
        | inl is ↦ elim (Option-cases rx.2) [
          | inr (x, is2) ↦ rw (is, is2, open_family) (open_ring-Out n b.rx w1 o)
          | inl is2 ↦ elim (Option-cases tx.2) [
            | inr (x, is3) ↦ rw (is, is2, is3, open_family) (open_ring-Out n b.rx w1 o)
            | inl is3 ↦
                rw (is, is2, is3, open_family)
                  (subst (Out n) (sym (bind_family-rx family port b3 tx.0))
                    (open_ring-Out n b.rx w1 o))
          ]
        ]
      ]

  open_family-ne-panics :
      (family port : ℕ) (b : AfWinRingBind) (w : W) → (open_family rio family port b w).2 ≢ panics
  unfolding open_family bind_family
  open_family-ne-panics family port b w h = ground arith

  -- What `Open` returns, and what the bind is then.
  pub record Opens (r : W × WinRingBind × Ended ℕ) : Type 0 where
    pub no_panic : r.2 ≢ panics
    pub all_out : (p : ℕ) → r.2 ≡ returns p → Out 256 r.1.v4.rx × Out 256 r.1.v6.rx

  announce-Opens :
      (port : ℕ) (b : WinRingBind) (w : W)
      → Out 256 b.v4.rx
      → Out 256 b.v6.rx
      → Opens (announce rio port b w)
  unfolding announce
  announce-Opens port b w o4 o6 = elim (Bool-cases b.subscriber) [
    | inr none_set ↦
        rw (none_set, announce) (record { no_panic = λ h. ground arith; all_out = λ p h. (o4, o6) })
    | inl is_set ↦ elim (Option-cases (rio.subscribe_closer w).1) [
      | inl fine ↦
          rw (is_set, fine, announce)
            (record { no_panic = λ h. ground arith; all_out = λ p h. (o4, o6) })
      | inr (x, bad) ↦
          rw (is_set, bad, announce)
            (record { no_panic = λ h. ground arith; all_out = λ p h. (o4, o6) })
    ]
  ]

  stopped : (w : W) (b : WinRingBind) (e : Err) → Opens (w, b, fails e)
  stopped w b e = record { no_panic = λ h. ground arith; all_out = λ p h. ground arith }

  starved_open : (w : W) (b : WinRingBind) → Opens (w, b, starves)
  starved_open w b = record { no_panic = λ h. ground arith; all_out = λ p h. ground arith }

  -- behind the two families
  filled-Opens :
      (port : ℕ) (r : W × WinRingBind × Ended (Unit {0}))
      → Fills 256 r
      → Opens (elim r.2 as (λ _. W × WinRingBind × Ended ℕ) [
        | fails e ↦ (r.0, r.1, fails e)
        | panics ↦ (r.0, r.1, panics)
        | starves ↦ (r.0, r.1, starves)
        | returns t ↦ announce rio port r.1 r.0
      ])
  filled-Opens port (w, b, fails e) k = stopped w b e
  filled-Opens port (w, b, panics) k = absurd (k.no_panic refl)
  filled-Opens port (w, b, starves) k = starved_open w b
  filled-Opens port (w, b, returns t) k =
      announce-Opens port b w (k.filled refl).0 (k.filled refl).1

  open_both-Opens :
      (port : ℕ) (b : WinRingBind) (w : W)
      → Out 0 b.v4.rx
      → Out 0 b.v6.rx
      → Opens (open_both rio port b w)
  unfolding open_both
  open_both-Opens port b w o4 o6 =
      let a4 = open_family rio rio.af_inet port b.v4 w in
      elim (Bool-cases (rio.load_is_open w == 0)) [
        | inr busy ↦ rw (busy, open_both) (stopped w b err_bind_already_open)
        | inl free ↦ elim (Ended-cases a4.2) [
          | inr (inl (x, is)) ↦ rw (free, is, open_both) (stopped _ _ x)
          | inr (inr (inl is)) ↦ absurd (open_family-ne-panics rio.af_inet port b.v4 w is)
          | inr (inr (inr is)) ↦ rw (free, is, open_both) (starved_open _ _)
          | inl (p4, is) ↦
              let a6 = open_family rio rio.af_inet6 p4 b.v6 a4.0 in
              elim (Ended-cases a6.2) [
                | inr (inl (x, is6)) ↦ rw (free, is, is6, open_both) (stopped _ _ x)
                | inr (inr (inl is6)) ↦ absurd (open_family-ne-panics rio.af_inet6 p4 b.v6 a4.0 is6)
                | inr (inr (inr is6)) ↦ rw (free, is, is6, open_both) (starved_open _ _)
                | inl (p6, is6) ↦
                    let b2 : WinRingBind = record b { v4 = a4.1; v6 = a6.1 } in
                    rw (free, is, is6, open_both)
                      (filled-Opens p6 (insert_requests rio 256 b2 a6.0) (
                        insert_requests-Fills 256 0 256 b2 a6.0 (omega arith) (omega arith)
                          (open_family-Out 0 rio.af_inet port b.v4 w o4)
                          (open_family-Out 0 rio.af_inet6 p4 b.v6 a4.0 o6)))
              ]
        ]
      ]

  -- What a caller of `Open` finds, where `tried` is how far it has come before the deferred call: on
  -- success all 256 packets of both rings taken, on an error - that the bind is already open is one -
  -- a bind that is reset, and everything that it held given back.
  pub record Starts (kept : Closings rio) (tried r : W × WinRingBind × Ended ℕ) : Type 0 where
    pub never_panics : r.2 ≢ panics
    pub on_port : (p : ℕ) → r.2 ≡ returns p → Out 256 r.1.v4.rx × Out 256 r.1.v6.rx
    pub on_error :
        (e : Err)
        → r.2 ≡ fails e
        → IsZeroed r.1.v4
          × IsZeroed r.1.v6
          × (r.1.unsubscribe ≡ false)
          × (kept.closed r.0 ≡ kept.closed tried.0 ++ bind_holds tried.1)

  clean_up-Starts :
      (kept : Closings rio) (r : W × WinRingBind × Ended ℕ)
      → Opens r
      → Starts kept r (clean_up rio r)
  unfolding clean_up close_and_zero zero_family
  clean_up-Starts kept (w, b, returns p) k = record {
    never_panics = k.no_panic;
    on_port = k.all_out;
    on_error = λ e h. ground arith;
  }
  clean_up-Starts kept (w, b, panics) k = absurd (k.no_panic refl)
  clean_up-Starts kept (w, b, starves) k = record {
    never_panics = λ h. ground arith;
    on_port = λ p h. ground arith;
    on_error = λ e h. ground arith;
  }
  clean_up-Starts kept (w, b, fails x) k = record {
    never_panics = λ h. ground arith;
    on_port = λ p h. ground arith;
    on_error = λ e h. (
      (refl, refl, refl, refl),
      (refl, refl, refl, refl),
      refl,
      closed-close_and_zero rio kept b w,
    );
  }

  -- From empty receive rings, `Open` never panics. When it returns a port, all 256 packets of both
  -- receive rings are taken. On every error, the sockets, the rings and the black-hole flags of both
  -- families are reset, no unsubscription is left, and exactly what the fields of the bind held where
  -- `Open` stopped - completion queues, ports, registered buffers, memory, sockets - has been given
  -- back, each once and by the call that fits.
  pub open_win-Starts :
      (kept : Closings rio) (port : ℕ) (b : WinRingBind) (w : W)
      → Out 0 b.v4.rx
      → Out 0 b.v6.rx
      → Starts kept (open_both rio port b w) (open_win rio port b w)
  unfolding open_win
  open_win-Starts kept port b w o4 o6 =
      clean_up-Starts kept (open_both rio port b w) (open_both-Opens port b w o4 o6)
