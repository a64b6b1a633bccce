-- ===== src/Split/Window.antt =====
-- The read window of `receiveIP`: with how many reads at the tail every segment is sure to fit.
use batchudp.Prelude.{ℕ, ◌+◌, ◌*◌, ◌≤◌, ◌<◌, ◌≡◌, List, [], ◌∷◌, ◌++◌, length, All, arith}
use batchudp.Slice.{len, cap_of, Msg}
use batchudp.Std.Pack.{first}
use batchudp.Gso.{GsoResult, size}
use batchudp.Split.{split_coalesced_messages, gro_read_batch_size}
use batchudp.Split.Segments.{HasRoom}
use batchudp.Split.Outer.{
  control_of, segments, received, Fitting, no_more, unread, read, Splits,
  split_coalesced_messages-Splits,
}

-- A message as the kernel leaves it: not filled, or at most 64 segments of at most `g` bytes in all.
pub data IsRead (get_gso : List ℕ → GsoResult) (g : ℕ) (m : Msg) : Type 0 where
  not_filled : m.n ≡ 0 → IsRead get_gso g m
  filled :
      (k : ℕ)
      → m.nn ≤ cap_of m.oob
      → get_gso (control_of m) ≡ size k
      → 0 < m.n
      → k ≤ m.n
      → m.n ≤ len (first m.buffers)
      → m.n ≤ g
      → length (segments m k) ≤ 64
      → IsRead get_gso g m

gro_read_batch_size_mul : (q : ℕ) → 0 < q → gro_read_batch_size (64 * q) ≡ q
unfolding gro_read_batch_size
gro_read_batch_size_mul q h = ground arith

-- The window is never empty and never more than the batch.
pub gro_read_batch_size_bounds :
    (b : ℕ) → 0 < b → (0 < gro_read_batch_size b) × (gro_read_batch_size b ≤ b)
unfolding gro_read_batch_size
gro_read_batch_size_bounds b h = ground arith

module _ (get_gso : List ℕ → GsoResult) (g : ℕ) where
  window-Fitting :
      (q j i n : ℕ) (reads : List Msg)
      → j + length reads ≡ q
      → i ≡ 63 * q + j
      → n ≤ 64 * j
      → All (IsRead get_gso g) reads
      → Fitting get_gso g i n reads
  window-Fitting q j i n [] e f h k = no_more i n
  window-Fitting q j i n (m ∷ ms) e f h (not_filled z, k) = unread i n m ms z
  window-Fitting q j i n (m ∷ ms) e f h (filled s held gso pos le inside small few, k) =
      read i n m ms s held gso pos le inside small (omega arith) (
        window-Fitting q (j + 1) (i + 1) (n + length (segments m s)) ms (omega arith) (omega arith)
          (omega arith) k)

  -- Where the batch size is a multiple of 64 and the window is the one that `receiveIP` reads, no
  -- kernel read of at most 64 segments a message can overflow the slots: all of it is delivered.
  pub gro_window-Splits :
      (q : ℕ) (head reads : List Msg)
      → 0 < q
      → length head + length reads ≡ 64 * q
      → length reads ≡ gro_read_batch_size (64 * q)
      → All (IsRead get_gso g) reads
      → All (HasRoom g) head
      → All (HasRoom g) reads
      → Splits get_gso g 0 head
          (received get_gso reads)
          (split_coalesced_messages get_gso (head ++ reads) (length head))
  gro_window-Splits q head reads pos whole window k rooms more =
      split_coalesced_messages-Splits get_gso g head reads
        (window-Fitting q 0 (length head) 0 reads (omega (arith, gro_read_batch_size_mul q pos))
          (omega (arith, gro_read_batch_size_mul q pos)) (omega arith) k)
        rooms more
