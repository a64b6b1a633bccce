-- ===== src/Win/Ring.antt =====
-- The packet ring of bind_windows.go: `Push` and `Return` on `uint32` counters that wrap.
pub mod Count
use batchudp.Prelude.{
  ℕ, ◌+◌, ◌%◌, Bool, true, false, not, ◌&&◌, Option, some, none, ◌==◌, if◌then◌else◌,
}

abbrev pub packets_per_ring : ℕ
packets_per_ring = 256

-- `2 ^ 32`
abbrev pub uint32_size : ℕ
uint32_size = 4294967296

-- `ringBuffer`; a handle of 0 is none. The lock and the overlapped structure have no content.
pub record RingBuffer : Type 0 where
  pub packets : ℕ
  pub head : ℕ
  pub tail : ℕ
  pub id : ℕ
  pub iocp : ℕ
  pub is_full : Bool
  pub cq : ℕ

-- The slot of the new packet, and the ring; `none` is the panic on a full ring.
unfoldable pub push : RingBuffer → Option (ℕ × RingBuffer)
push rb =
    let tail' = (rb.tail + 1) % uint32_size in
    if rb.is_full
    then none
    else some (
      rb.tail % packets_per_ring,
      record rb {
        tail = tail';
        is_full =
            (if (tail' % packets_per_ring) == (rb.head % packets_per_ring)
              then true
              else rb.is_full);
      },
    )

-- `Return`
unfoldable pub return_packets : ℕ → RingBuffer → RingBuffer
return_packets count rb =
    if ((rb.head % packets_per_ring) == (rb.tail % packets_per_ring)) && not rb.is_full
    then rb
    else record rb { head = (rb.head + count) % uint32_size; is_full = false }
