-- ===== src/Wire.antt =====
-- From one side's `coalesceMessages` to the other side's `splitCoalescedMessages`, both of
-- bind_std.go: what the network does between them, where it loses nothing.
pub mod Arrival
use batchudp.Prelude.{ℕ, ◌+◌, ◌≤◌, ◌<◌, ◌≡◌, List, [], ◌∷◌, length, take, some, All}
use batchudp.Slice.{Slice, cap_of, Msg, UdpAddr, payload}
use batchudp.Unix.{Unix}
use batchudp.Gso.{size, get_gso_size}
use batchudp.Std.Pack.{first, kernel_gso}
use batchudp.Split.Outer.{control_of}

-- `r` is what a read finds of `m`, sent from `from`: its bytes, its segment size, and control data
-- within its buffer, and at most `g` bytes in all.
pub record Carries (u : Unix) (from : UdpAddr) (g : ℕ) (m r : Msg) : Type 0 where
  pub filled : r.n ≡ length (payload m)
  pub has_bytes : 0 < r.n
  pub same_bytes : take r.n (first r.buffers).bytes ≡ payload m
  pub same_size : get_gso_size u (control_of r) ≡ size (kernel_gso u m.oob)
  pub size_le : kernel_gso u m.oob ≤ r.n
  pub held : r.nn ≤ cap_of r.oob
  pub sender : r.addr ≡ some from
  pub small : r.n ≤ g

-- The reads hold the messages that were sent, one each and in order; the slots behind them are not
-- filled.
pub data Carried (u : Unix) (from : UdpAddr) (g : ℕ) : List Msg → List Msg → Type 0 where
  all_read : (rs : List Msg) → All (λ (r : Msg). r.n ≡ 0) rs → Carried u from g [] rs
  one_read :
      (m r : Msg) (ms rs : List Msg)
      → Carries u from g m r
      → Carried u from g ms rs
      → Carried u from g (m ∷ ms) (r ∷ rs)
