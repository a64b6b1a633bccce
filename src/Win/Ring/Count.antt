-- ===== src/Win/Ring/Count.antt =====
-- A ring as a queue of at most 256 packets.
use batchudp.Prelude.{
  ℕ, ◌+◌, ◌-◌, ◌%◌, ◌<◌, ◌≤◌, ◌≡◌, refl, true, Option, some, none, ◌==◌, if◌then◌else◌, arith, inl,
  inr, Bool-cases,
}
use batchudp.Win.Ring.{RingBuffer, push, return_packets}

-- How many packets are out.
unfoldable pub used : RingBuffer → ℕ
used rb = if rb.is_full then 256 else ((rb.tail % 256) + 256 - (rb.head % 256)) % 256

pub record IsRing (rb : RingBuffer) : Type 0 where
  pub small_head : rb.head < 4294967296
  pub small_tail : rb.tail < 4294967296
  pub full_lem : rb.is_full ≡ true → (rb.head % 256) ≡ (rb.tail % 256)

pub used-le : (rb : RingBuffer) → used rb ≤ 256
unfolding used
used-le rb = ground arith

-- What a push does to a ring that has room.
pub record Pushed (rb : RingBuffer) (r : Option (ℕ × RingBuffer)) : Type 0 where
  pub slot : ℕ
  pub after : RingBuffer
  pub result : r ≡ some (slot, after)
  pub is_slot : slot ≡ (rb.head + used rb) % 256
  pub more : used after ≡ used rb + 1
  pub same_head : after.head ≡ rb.head
  pub still : IsRing after

-- While fewer than 256 packets are out, a push does not panic, takes the slot behind those that are
-- out, counts one more, and keeps the ring well-formed, also where a counter wraps.
pub push-Pushed : (rb : RingBuffer) → IsRing rb → used rb < 256 → Pushed rb (push rb)
unfolding push used
push-Pushed rb k room = elim (Bool-cases rb.is_full) [
  | inl full ↦ absurd (ground arith)
  | inr free ↦ record {
    slot = rb.tail % 256;
    after = record rb {
      tail = (rb.tail + 1) % 4294967296;
      is_full =
          (if ((rb.tail + 1) % 4294967296 % 256) == (rb.head % 256) then true else rb.is_full);
    };
    result = simp free;
    is_slot = ground arith;
    more = ground arith;
    same_head = refl;
    still = record {
      small_head = k.small_head;
      small_tail = omega arith;
      full_lem = λ e. ground arith;
    };
  }
]

-- With all of them out it does.
pub push-full : (rb : RingBuffer) → IsRing rb → used rb ≡ 256 → push rb ≡ none
unfolding push used
push-full rb k full = ground arith

-- Giving back some of the packets that are out counts so many less, from the oldest on.
pub used-return_packets :
    (rb : RingBuffer) (count : ℕ)
    → IsRing rb
    → 0 < count
    → count ≤ used rb
    → (used (return_packets count rb) ≡ used rb - count)
      × (((return_packets count rb).head % 256) ≡ (rb.head + count) % 256)
      × IsRing (return_packets count rb)
unfolding return_packets used
used-return_packets rb count k pos le = (
  ground arith,
  ground arith,
  record { small_head = ground arith; small_tail = ground arith; full_lem = λ e. ground arith },
)
