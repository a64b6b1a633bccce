-- ===== src/Coalesce/Laws.antt =====
-- What the coalescing loop needs of its four operations and of the control message, and what the
-- kernel makes of a message that is sent.
use batchudp.Prelude.{
  ℕ, ◌^◌, ◌≤◌, ◌<◌, ◌≡◌, true, List, [], ◌∷◌, ◌++◌, length, some, ◌==◌, if◌then◌else◌,
}
use batchudp.Prelude.Chunks.{chunks}
use batchudp.Slice.{Slice, Msg, UdpAddr, payload}
use batchudp.Coalesce.{Packer, udp_segment_max_datagrams}

-- `gso_of` is the segment size that the kernel reads from a control buffer, 0 if there is none.
-- A blank message is one as it comes from the pool; a ready one carries datagrams and no size.
pub record Lawful (p : Packer) (set_gso : Slice → ℕ → Slice) (gso_of : Slice → ℕ) (dest : UdpAddr)
    : Type 1 where
  pub IsBlank : Msg → Type 0
  pub IsReady : Msg → Type 0
  pub has_buffer : (m : Msg) → IsBlank m → 0 < length m.buffers
  pub begin-IsReady : (m : Msg) (b : Slice) → IsBlank m → IsReady (p.begin m b)
  pub payload-begin : (m : Msg) (b : Slice) → IsBlank m → payload (p.begin m b) ≡ b.bytes
  pub addr-begin : (m : Msg) (b : Slice) → (p.begin m b).addr ≡ some dest
  pub gso_of-ready : (m : Msg) → IsReady m → gso_of m.oob ≡ 0
  pub gso_of-tag : (m : Msg) (k : ℕ) → IsReady m → k < 2 ^ 16 → gso_of (set_gso m.oob k) ≡ k
  pub base_len_lem : (m : Msg) → IsReady m → p.base_len m ≡ length (payload m)
  pub join-IsReady :
      (m : Msg) (b : Slice) → IsReady m → p.has_room m b ≡ true → IsReady (p.join m b)
  pub payload-join :
      (m : Msg) (b : Slice)
      → IsReady m
      → p.has_room m b ≡ true
      → payload (p.join m b) ≡ payload m ++ b.bytes
  pub addr-join : (m : Msg) (b : Slice) → (p.join m b).addr ≡ m.addr

module _ (gso_of : Slice → ℕ) where
  -- UDP_SEGMENT: with a segment size the kernel cuts the payload, else it is one datagram.
  abbrev pub datagrams : Msg → List (List ℕ)
  datagrams m = if gso_of m.oob == 0 then payload m ∷ [] else chunks (gso_of m.oob) (payload m)

  -- What the kernel accepts: at most 64 segments, and no segmented payload above the limit.
  pub record IsSendable (dest : UdpAddr) (max_payload : ℕ) (m : Msg) : Type 0 where
    pub goes_to : m.addr ≡ some dest
    pub few : length (datagrams m) ≤ udp_segment_max_datagrams
    pub small : 1 < length (datagrams m) → length (payload m) ≤ max_payload
