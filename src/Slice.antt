-- ===== src/Slice.antt =====
-- Go byte slices, network addresses and the message type that the batch code passes around.
--
-- A slice is what can be read (`bytes`) and what lies behind it up to its capacity (`spare`).
-- Slices are values: two slices of one backing array do not see each other's writes.
use batchudp.Prelude.{
  some, none, set, ◌<◌, ◌≡◌, refl, arith, ℕ, zero, suc, ◌+◌, ◌==◌, ◌&&◌, [], ◌∷◌, Bool, true, false,
  Option, List, ◌++◌, map, length, take, drop, flat,
}

pub record Slice : Type 0 where
  pub bytes : List ℕ
  pub spare : List ℕ

abbrev pub len : Slice → ℕ
len s = length s.bytes

-- `cap(s)`
abbrev pub cap_of : Slice → ℕ
cap_of s = length s.bytes + length s.spare

-- `s[:n]`, for `n` up to the capacity.
abbrev pub reslice : Slice → ℕ → Slice
reslice s n = record { bytes = take n (s.bytes ++ s.spare); spare = drop n (s.bytes ++ s.spare) }

-- `append(s, xs...)`, where the capacity is enough.
abbrev pub append : Slice → List ℕ → Slice
append s xs = record { bytes = s.bytes ++ xs; spare = drop (length xs) s.spare }

-- `Buffers[0] = b`; `none` is a panic, of no buffer.
unfoldable pub set_first : List Slice → Slice → Option (List Slice)
set_first [] b = none
set_first (t ∷ ts) b = some (b ∷ ts)

pub set_first-set :
    (bs : List Slice) (b : Slice) → 0 < length bs → set_first bs b ≡ some (set bs 0 b)
unfolding set_first
set_first-set [] b h = absurd (omega arith)
set_first-set (t ∷ ts) b h = refl

-- `netip.Addr`: the zero address, four bytes, or sixteen bytes.
pub data Addr : Type 0 where
  zero_addr : Addr
  v4 : List ℕ → Addr
  v6 : List ℕ → Addr

abbrev pub is6 : Addr → Bool
is6 (v6 bs) = true
is6 (v4 bs) = false
is6 zero_addr = false

-- `netip.AddrPort`
pub record AddrPort : Type 0 where
  pub addr : Addr
  pub port : ℕ

-- `net.UDPAddr`, without its zone, which the library leaves empty.
pub record UdpAddr : Type 0 where
  pub ip : List ℕ
  pub udp_port : ℕ

-- `ipv6.Message` (and `ipv4.Message`, the same type). The code never touches its `Flags`.
pub record Msg : Type 0 where
  pub buffers : List Slice
  pub oob : Slice
  pub addr : Option UdpAddr
  pub n : ℕ
  pub nn : ℕ

-- The bytes that a write of the message puts on the wire.
abbrev pub payload : Msg → List ℕ
payload m = flat (map (λ (s : Slice). s.bytes) m.buffers)

-- Whether every byte of the list is `b`, in the first `n` places.
abbrev pub starts_with : ℕ → ℕ → List ℕ → Bool
starts_with zero b xs = true
starts_with (suc n) b [] = false
starts_with (suc n) b (x ∷ xs) = x == b && starts_with n b xs
