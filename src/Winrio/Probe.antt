-- ===== src/Winrio/Probe.antt =====
-- `Initialize` gives back what it takes, and asks Windows once.
use batchudp.Prelude.{
  ℕ, ◌≡◌, refl, ap, ◌∙◌, Bool, List, ◌∷◌, ◌==◌, if◌then◌else◌, arith, inl, inr, Bool-cases,
  Option-cases,
}
use batchudp.Std.Open.Leaks.{Outcome-cases, remove, remove_head, held}
use batchudp.Winrio.{
  Notification, QueueSizes, one_each, iocp_completion, Winsock, Probed,
  create_iocp_completion_queue, create_request_queue, probe_queues, probe, initialize,
}

-- The handles and the completion queues that are open: each call that makes one adds it, where it
-- succeeds, and each that closes one takes it away.
pub record Resources {W : Type 0} (sys : Winsock W) : Type 0 where
  pub owned : W → List ℕ × List ℕ
  pub owned-socket :
      (a t p : ℕ) (w : W)
      → owned (sys.wsa_socket a t p w).0
        ≡ (held (sys.wsa_socket a t p w).1 (owned w).0, (owned w).1)
  pub owned-table : (s : ℕ) (w : W) → owned (sys.load_table s w).0 ≡ owned w
  pub owned-port :
      (w : W) → owned (sys.create_port w).0 ≡ (held (sys.create_port w).1 (owned w).0, (owned w).1)
  pub owned-close :
      (h : ℕ) (w : W) → owned (sys.close_handle h w) ≡ (remove h (owned w).0, (owned w).1)
  pub owned-queue :
      (n : ℕ) (m : Notification) (w : W)
      → owned (sys.rio_create_completion_queue n m w).0 ≡ (
        (owned w).0,
        if (sys.rio_create_completion_queue n m w).1 == 0
            then (owned w).1
            else (sys.rio_create_completion_queue n m w).1 ∷ (owned w).1,
      )
  pub owned-close_queue :
      (q : ℕ) (w : W)
      → owned (sys.rio_close_completion_queue q w) ≡ ((owned w).0, remove q (owned w).1)
  pub owned-request :
      (s : ℕ) (z : QueueSizes) (a b c : ℕ) (w : W)
      → owned (sys.rio_create_request_queue s z a b c w).0 ≡ owned w

module _ {W : Type 0} (sys : Winsock W) (res : Resources sys) where
  open res use {
    owned, owned-socket, owned-table, owned-port, owned-close, owned-queue, owned-close_queue,
    owned-request,
  }

  owned-create :
      (n port key overlapped : ℕ) (w : W)
      → owned (create_iocp_completion_queue sys n port key overlapped w).0 ≡ (
        (owned w).0,
        held (create_iocp_completion_queue sys n port key overlapped w).1 (owned w).1,
      )
  unfolding create_iocp_completion_queue
  owned-create n port key overlapped w =
      ground (arith, owned-queue n (iocp_completion port key overlapped) w)

  owned-request_queue :
      (s : ℕ) (z : QueueSizes) (a b c : ℕ) (w : W)
      → owned (create_request_queue sys s z a b c w).0 ≡ owned w
  unfolding create_request_queue
  owned-request_queue s z a b c w = owned-request s z a b c w

  close_last :
      (h : ℕ) (hs qs : List ℕ) (w : W)
      → owned w ≡ (h ∷ hs, qs)
      → owned (sys.close_handle h w) ≡ (hs, qs)
  close_last h hs qs w e =
      owned-close h w
      ∙ ap (λ (o : List ℕ × List ℕ). (remove h o.0, o.1)) e
      ∙ ap (λ l. (l, qs)) (remove_head h hs)

  close_last_queue :
      (q : ℕ) (hs qs : List ℕ) (w : W)
      → owned w ≡ (hs, q ∷ qs)
      → owned (sys.rio_close_completion_queue q w) ≡ (hs, qs)
  close_last_queue q hs qs w e =
      owned-close_queue q w
      ∙ ap (λ (o : List ℕ × List ℕ). (o.0, remove q o.1)) e
      ∙ ap (λ l. (hs, l)) (remove_head q qs)

  owned-probe_queues :
      (sock port overlapped : ℕ) (w : W)
      → owned (probe_queues sys sock port overlapped w).0 ≡ owned w
  unfolding probe_queues
  owned-probe_queues sock port overlapped w =
      let hs = (owned w).0 in
      let qs = (owned w).1 in
      let r1 = create_iocp_completion_queue sys 2 port 0 overlapped w in
      let o1 : owned r1.0 ≡ (hs, held r1.1 qs) = owned-create 2 port 0 overlapped w in
      elim (Outcome-cases r1.1) [
        | inr (e, no1) ↦ rw (no1, probe_queues) (o1 ∙ ap (λ o. (hs, held o qs)) no1)
        | inl (cq, yes1) ↦
            let r2 = create_request_queue sys sock one_each cq cq 0 r1.0 in
            let gone : owned (sys.rio_close_completion_queue cq r2.0) ≡ (hs, qs) =
              close_last_queue cq hs qs r2.0 (
                owned-request_queue sock one_each cq cq 0 r1.0
                ∙ o1
                ∙ ap (λ o. (hs, held o qs)) yes1) in
            elim (Outcome-cases r2.1) [
              | inr (e, no2) ↦ rw (yes1, no2, probe_queues) gone
              | inl (q, yes2) ↦ rw (yes1, yes2, probe_queues) gone
            ]
      ]

  owned-probe : (overlapped : ℕ) (w : W) → owned (probe sys overlapped w).0 ≡ owned w
  unfolding probe
  owned-probe overlapped w =
      let hs = (owned w).0 in
      let qs = (owned w).1 in
      let r1 = sys.wsa_socket sys.af_inet sys.sock_dgram sys.ipproto_udp w in
      let o1 : owned r1.0 ≡ (held r1.1 hs, qs) =
        owned-socket sys.af_inet sys.sock_dgram sys.ipproto_udp w in
      elim (Outcome-cases r1.1) [
        | inr (e, no1) ↦ rw (no1, probe) (o1 ∙ ap (λ o. (held o hs, qs)) no1)
        | inl (sock, yes1) ↦
            let r2 = sys.load_table sock r1.0 in
            let o2 : owned r2.0 ≡ (sock ∷ hs, qs) =
              owned-table sock r1.0 ∙ o1 ∙ ap (λ o. (held o hs, qs)) yes1 in
            elim (Option-cases r2.1) [
              | inr (e, no2) ↦ rw (yes1, no2, probe) (close_last sock hs qs r2.0 o2)
              | inl yes2 ↦
                  let r3 = sys.create_port r2.0 in
                  let o3 : owned r3.0 ≡ (held r3.1 (sock ∷ hs), qs) =
                    owned-port r2.0 ∙ ap (λ (o : List ℕ × List ℕ). (held r3.1 o.0, o.1)) o2 in
                  elim (Outcome-cases r3.1) [
                    | inr (e, no3) ↦
                        rw (yes1, yes2, no3, probe)
                          (close_last sock hs qs r3.0 (o3 ∙ ap (λ o. (held o (sock ∷ hs), qs)) no3))
                    | inl (port, yes3) ↦
                        let w4 = (probe_queues sys sock port overlapped r3.0).0 in
                        rw (yes1, yes2, yes3, probe)
                          (close_last sock hs qs (sys.close_handle port w4) (
                            close_last port (sock ∷ hs) qs w4 (
                              owned-probe_queues sock port overlapped r3.0
                              ∙ o3
                              ∙ ap (λ o. (held o (sock ∷ hs), qs)) yes3)))
                  ]
            ]
      ]

  -- How `Initialize` ends.
  pub record Initializes (w : W) (r : W × Probed × Bool) : Type 0 where
    pub nothing_left : owned r.0 ≡ owned w
    pub answers : r.2 ≡ r.1.available
    -- a later call
    pub settled :
        (overlapped : ℕ) (later : W) → initialize sys overlapped r.1 later ≡ (later, r.1, r.2)

  -- On every path, `Initialize` has closed each handle and each completion queue that it opened; its
  -- answer is what it keeps, and no later call asks Windows again or answers otherwise.
  pub initialize-Initializes :
      (overlapped : ℕ) (p : Probed) (w : W) → Initializes w (initialize sys overlapped p w)
  unfolding initialize
  initialize-Initializes overlapped p w = elim (Bool-cases p.initialized) [
    | inl known ↦
        rw (known, initialize)
          (record { nothing_left = refl; answers = refl; settled = λ o later. refl })
    | inr first ↦ elim (Bool-cases (probe sys overlapped w).1) [
      | inl found ↦
          rw (first, found, initialize)
            (record {
              nothing_left = owned-probe overlapped w;
              answers = refl;
              settled = λ o later. refl;
            })
      | inr missing ↦
          rw (first, missing, initialize)
            (record {
              nothing_left = owned-probe overlapped w;
              answers = refl;
              settled = λ o later. refl;
            })
    ]
  ]
