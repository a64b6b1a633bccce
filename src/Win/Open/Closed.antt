-- ===== src/Win/Open/Closed.antt =====
-- What the teardown of WinRingBind gives back: `closeAndZero` and `CloseAndZero` of bind_windows.go.
use batchudp.Prelude.{
  ℕ, ◌≡◌, sym, ◌∙◌, List, [], ◌∷◌, ◌++◌, ◌==◌, if◌then◌else◌, inl, inr, Bool-cases, append-nil,
  append_assoc,
}
use batchudp.Win.Ring.{RingBuffer}
use batchudp.Win.Api.{Rio}
use batchudp.Win.Queue.{AfWinRingBind}
use batchudp.Win.Open.{WinRingBind, release, close_ring, close_family, close_and_zero}

-- What is given back, and by which call.
pub data Resource : Type 0 where
  queue : ℕ → Resource
  handle : ℕ → Resource
  buffer : ℕ → Resource
  memory : ℕ → Resource

-- A system that keeps a record of what has been given back.
pub record Closings {W : Type 0} (rio : Rio W) : Type 0 where
  pub closed : W → List Resource
  pub closed-queue :
      (h : ℕ) (w : W) → closed (rio.close_completion_queue h w) ≡ closed w ++ (queue h ∷ [])
  pub closed-handle : (h : ℕ) (w : W) → closed (rio.close_handle h w) ≡ closed w ++ (handle h ∷ [])
  pub closed-buffer :
      (h : ℕ) (w : W) → closed (rio.deregister_buffer h w) ≡ closed w ++ (buffer h ∷ [])
  pub closed-memory : (p : ℕ) (w : W) → closed (rio.virtual_free p w) ≡ closed w ++ (memory p ∷ [])
  pub closed-store : (v : ℕ) (w : W) → closed (rio.store_is_open v w) ≡ closed w
  pub closed-unsubscribe : (w : W) → closed (rio.unsubscribe w) ≡ closed w

-- The resource of a field, none for 0.
unfoldable pub of_field : (ℕ → Resource) → ℕ → List Resource
of_field kind h = if h == 0 then [] else kind h ∷ []

-- What the fields of a ring, of a family and of a bind hold.
unfoldable pub ring_holds : RingBuffer → List Resource
ring_holds r =
    of_field queue r.cq
    ++ (of_field handle r.iocp ++ (of_field buffer r.id ++ of_field memory r.packets))

unfoldable pub family_holds : AfWinRingBind → List Resource
family_holds b = ring_holds b.rx ++ (ring_holds b.tx ++ of_field handle b.sock)

unfoldable pub bind_holds : WinRingBind → List Resource
bind_holds b = family_holds b.v4 ++ family_holds b.v6

module _ {W : Type 0} (rio : Rio W) (kept : Closings rio) where
  open kept use {
    closed, closed-queue, closed-handle, closed-buffer, closed-memory, closed-store,
    closed-unsubscribe,
  }

  closed-release :
      (close : ℕ → W → W) (kind : ℕ → Resource)
      → ((h : ℕ) (w : W) → closed (close h w) ≡ closed w ++ (kind h ∷ []))
      → (h : ℕ) (w : W) → closed (release close h w) ≡ closed w ++ of_field kind h
  unfolding release of_field
  closed-release close kind law h w = elim (Bool-cases (h == 0)) [
    | inl z ↦ rw z (sym (append-nil (closed w)))
    | inr held ↦ rw held (law h w)
  ]

  closed-close_ring :
      (r : RingBuffer) (w : W) → closed (close_ring rio r w) ≡ closed w ++ ring_holds r
  unfolding close_ring ring_holds
  closed-close_ring r w =
      let w1 = release rio.close_completion_queue r.cq w in
      let w2 = release rio.close_handle r.iocp w1 in
      let w3 = release rio.deregister_buffer r.id w2 in
      rw
        (
          closed-release rio.virtual_free memory closed-memory r.packets w3,
          closed-release rio.deregister_buffer buffer closed-buffer r.id w2,
          closed-release rio.close_handle handle closed-handle r.iocp w1,
          closed-release rio.close_completion_queue queue closed-queue r.cq w,
        )
        (simp append_assoc)

  closed-close_family :
      (b : AfWinRingBind) (w : W) → closed (close_family rio b w) ≡ closed w ++ family_holds b
  unfolding close_family family_holds
  closed-close_family b w =
      rw
        (
          closed-release rio.close_handle handle closed-handle b.sock
              (close_ring rio b.tx (close_ring rio b.rx w)),
          closed-close_ring b.tx (close_ring rio b.rx w),
          closed-close_ring b.rx w,
        )
        (simp append_assoc)

  pub closed-close_and_zero :
      (b : WinRingBind) (w : W) → closed (close_and_zero rio b w).0 ≡ closed w ++ bind_holds b
  unfolding close_and_zero bind_holds
  closed-close_and_zero b w =
      let w1 = rio.store_is_open 0 w in
      let w2 = (if b.unsubscribe then rio.unsubscribe w1 else w1) in
      let same : closed w2 ≡ closed w = elim (Bool-cases b.unsubscribe) [
        | inl on ↦ rw on (closed-unsubscribe w1 ∙ closed-store 0 w)
        | inr off ↦ rw off (closed-store 0 w)
      ] in
      rw (closed-close_family b.v6 (close_family rio b.v4 w2), closed-close_family b.v4 w2, same)
        (append_assoc (closed w) (family_holds b.v4) (family_holds b.v6))
