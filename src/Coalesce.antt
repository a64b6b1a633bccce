-- ===== src/Coalesce.antt =====
-- Coalescing of outgoing datagrams for UDP segmentation offload: `coalesceMessages` of bind_std.go,
-- and the loop that it shares with the method of the same name in batching_conn_linux.go.
--
-- `Packer` holds the four places in which the two loops differ. The loop variable `base` is
-- `count - 1` here, so that -1 needs no integers; `none` is an index out of range of `msgs`.
pub mod Laws
mod Loop
mod Progress
pub mod Roundtrip
pub mod Keep
use batchudp.Prelude.{
  ℕ, ◌+◌, ◌-◌, ◌%◌, ◌^◌, Bool, true, false, not, ◌&&◌, Option, none, some, List, [], ◌∷◌, length,
  set, get_elem?, ltb, leb, ◌==◌, if◌then◌else◌,
}
use batchudp.Slice.{Slice, len, Msg}

abbrev pub max_ipv4_payload_len : ℕ
max_ipv4_payload_len = 2 ^ 16 - 1 - 20 - 8

abbrev pub max_ipv6_payload_len : ℕ
max_ipv6_payload_len = 2 ^ 16 - 1 - 8

abbrev pub udp_segment_max_datagrams : ℕ
udp_segment_max_datagrams = 64

pub record Packer : Type 0 where
  -- what the message at `base` already holds
  pub base_len : Msg → ℕ
  -- is there room for the buffer in the message's own memory
  pub has_room : Msg → Slice → Bool
  -- add the buffer to the message at `base`
  pub join : Msg → Slice → Msg
  -- make a fresh message of the buffer
  pub begin : Msg → Slice → Msg

pub record Coal : Type 0 where
  pub count : ℕ
  pub gso_size : ℕ
  pub dgram_cnt : ℕ
  pub end_batch : Bool
  pub msgs : List Msg

-- `setGSO(&m.OOB, uint16(gsoSize))`
abbrev pub tag : (Slice → ℕ → Slice) → ℕ → Msg → Msg
tag set_gso k m = record m { oob = set_gso m.oob (k % 2 ^ 16) }

module _ (p : Packer) (set_gso : Slice → ℕ → Slice) (max_payload total : ℕ) where
  -- The five conditions under which a buffer joins the message at `base`.
  unfoldable pub fits : Coal → Msg → Slice → Bool
  fits s m buf =
      leb (len buf + p.base_len m) max_payload
      && (leb (len buf) s.gso_size
          && (p.has_room m buf && (ltb s.dgram_cnt udp_segment_max_datagrams && not s.end_batch)))

  -- The body under those conditions, up to `continue`.
  unfoldable pub extend : ℕ → Slice → Coal → Msg → Coal
  extend i buf s m =
      let m' = p.join m buf in
      let m'' = (if i + 1 == total then tag set_gso s.gso_size m' else m') in
      record s {
        msgs = set s.msgs (s.count - 1) m'';
        dgram_cnt = s.dgram_cnt + 1;
        end_batch = (if ltb (len buf) s.gso_size then true else s.end_batch);
      }

  -- `if dgramCnt > 1 { setGSO(&msgs[base].OOB, ...) }`
  unfoldable pub finish : Coal → List Msg
  finish s =
      if ltb 1 s.dgram_cnt
      then elim (get_elem? s.msgs (s.count - 1)) [
        | none ↦ s.msgs
        | some m ↦ set s.msgs (s.count - 1) (tag set_gso s.gso_size m)
      ]
      else s.msgs

  -- `base++` and the assignments after it, into the message array `ms`.
  -- A message without a first buffer is an index out of range as well.
  unfoldable pub place : List Msg → ℕ → Slice → Option Coal
  place ms count buf = elim (get_elem? ms count) [
    | none ↦ none
    | some m ↦
        if length m.buffers == 0
        then none
        else some (record {
          count = count + 1;
          gso_size = len buf;
          dgram_cnt = 1;
          end_batch = false;
          msgs = set ms count (p.begin m buf);
        })
  ]

  -- The rest of the body: close the message at `base` and begin the next one.
  unfoldable pub start : Slice → Coal → Option Coal
  start buf s = place (finish s) s.count buf

  unfoldable pub step : ℕ → Slice → Coal → Option Coal
  step i buf s =
      if ltb 0 i
      then elim (get_elem? s.msgs (s.count - 1)) [
        | none ↦ none
        | some m ↦ if fits s m buf then some (extend i buf s m) else start buf s
      ]
      else start buf s

  unfoldable pub loop : ℕ → List Slice → Coal → Option (ℕ × List Msg)
  loop i [] s = some (s.count, s.msgs)
  loop i (buf ∷ bufs) s = elim (step i buf s) [ none ↦ none | some s' ↦ loop (i + 1) bufs s' ]

-- The whole function: the number of messages to send, and the message array.
unfoldable pub coalesce :
    Packer → (Slice → ℕ → Slice) → ℕ → List Slice → List Msg → Option (ℕ × List Msg)
coalesce p set_gso max_payload bufs msgs =
    loop p set_gso max_payload (length bufs) 0 bufs
      (record { count = 0; gso_size = 0; dgram_cnt = 0; end_batch = false; msgs = msgs })
