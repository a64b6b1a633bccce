-- ===== src/Split.antt =====
-- Splitting of received datagrams that the kernel coalesced (UDP GRO): `splitCoalescedMessages`
-- and `groReadBatchSize` of bind_std.go.
--
-- The messages are read at the tail of the array and their segments written from its head on, in
-- place. An index or a slice bound out of range is `panicked`. The outer loop recurs on the number
-- of messages left, the inner one on `numToSplit - j`.
pub mod Segments
pub mod Inner
pub mod Outer
pub mod Overflow
pub mod Window
use batchudp.Prelude.{
  ℕ, zero, suc, ◌+◌, ◌-◌, ◌/◌, Bool, true, false, ◌&&◌, ◌||◌, Option, none, some, List, [], ◌∷◌,
  ◌++◌, length, set, get_elem?, take, drop, ltb, leb, ◌==◌, if◌then◌else◌,
}
use batchudp.Slice.{Slice, len, cap_of, Msg, UdpAddr}
use batchudp.Coalesce.{udp_segment_max_datagrams}
use batchudp.Gso.{GsoResult, size, parse_error, starved}

pub data SplitError : Type 0 where
  bad_control : SplitError
  overflowed : SplitError

pub data SplitResult : Type 0 where
  split : ℕ → List Msg → SplitResult
  failed : ℕ → SplitError → List Msg → SplitResult
  panicked : SplitResult

-- `s[start:end]`
unfoldable pub sub_slice : Slice → ℕ → ℕ → Option (List ℕ)
sub_slice s start end =
    if leb start end && leb end (cap_of s)
    then some (take (end - start) (drop start (s.bytes ++ s.spare)))
    else none

-- `copied := copy(msgs[n].Buffers[0], xs)`, `msgs[n].N = copied`, `msgs[n].Addr = addr`
unfoldable pub receive_segment : List ℕ → Option UdpAddr → Msg → Option Msg
receive_segment xs addr m = elim (get_elem? m.buffers 0) [
  | none ↦ none
  | some dst ↦
      let put = take (len dst) xs in
      some (record m {
        buffers = set m.buffers 0 (record dst { bytes = put ++ drop (length put) dst.bytes });
        n = length put;
        addr = addr;
      })
]

-- `msg.Buffers[0][start:end]`
unfoldable pub source_segment : Msg → ℕ → ℕ → Option (List ℕ)
source_segment src start end = elim (get_elem? src.buffers 0) [
  | none ↦ none
  | some b ↦ sub_slice b start end
]

-- The body of the inner loop: segment `[start:end]` of message `i` goes to message `n`.
unfoldable pub move_segment : ℕ → ℕ → ℕ → ℕ → List Msg → SplitResult
move_segment i start end n msgs =
    if ltb i n then failed n overflowed msgs else elim (get_elem? msgs i) [
      | none ↦ panicked
      | some src ↦ elim (source_segment src start end) [
        | none ↦ panicked
        | some xs ↦ elim (get_elem? msgs n) [
          | none ↦ panicked
          | some dst ↦ elim (receive_segment xs src.addr dst) [
            | none ↦ panicked
            | some dst' ↦ split (n + 1) (set msgs n dst')
          ]
        ]
      ]
    ]

-- `end += gsoSize; if end > msg.N { end = msg.N }`
unfoldable pub next_end : ℕ → ℕ → ℕ → List Msg → ℕ
next_end i end gso_size msgs = elim (get_elem? msgs i) [
  | none ↦ end + gso_size
  | some src ↦ if ltb src.n (end + gso_size) then src.n else end + gso_size
]

-- The inner loop.
unfoldable pub split_message : ℕ → ℕ → ℕ → ℕ → ℕ → ℕ → List Msg → SplitResult
split_message zero i gso_size start end n msgs = split n msgs
split_message (suc rounds) i gso_size start end n msgs = elim (move_segment i start end n msgs) [
  | failed n' e ms ↦ failed n' e ms
  | panicked ↦ panicked
  | split n' ms ↦ split_message rounds i gso_size end (next_end i end gso_size ms) n' ms
]

-- `if i != n-1 { msg.N = 0 }`
unfoldable pub zero_source : ℕ → ℕ → List Msg → List Msg
zero_source i n msgs = elim (get_elem? msgs i) [
  | none ↦ msgs
  | some m ↦ if i + 1 == n then msgs else set msgs i (record m { n = 0 })
]

module _ (get_gso : List ℕ → GsoResult) where
  -- `numToSplit` and the first `end`
  unfoldable pub num_to_split : ℕ → ℕ → ℕ
  num_to_split size_n gso_size = if ltb 0 gso_size then (size_n + gso_size - 1) / gso_size else 1

  unfoldable pub first_end : ℕ → ℕ → ℕ
  first_end size_n gso_size = if ltb 0 gso_size then gso_size else size_n

  -- The outer loop, over the `todo` messages from `i` on.
  unfoldable pub split_from : ℕ → ℕ → ℕ → List Msg → SplitResult
  split_from zero i n msgs = split n msgs
  split_from (suc todo) i n msgs = elim (get_elem? msgs i) [
    | none ↦ panicked
    | some msg ↦ if msg.n == 0 then split n msgs else elim (sub_slice msg.oob 0 msg.nn) [
      | none ↦ panicked
      | some control ↦ elim (get_gso control) [
        | parse_error ↦ failed n bad_control msgs
        | starved ↦ failed n bad_control msgs
        | size gso_size ↦
            elim (split_message (num_to_split msg.n gso_size) i gso_size 0
              (first_end msg.n gso_size) n msgs) [
                | failed n' e ms ↦ failed n' e ms
                | panicked ↦ panicked
                | split n' ms ↦ split_from todo (i + 1) n' (zero_source i n' ms)
              ]
      ]
    ]
  ]

  unfoldable pub split_coalesced_messages : List Msg → ℕ → SplitResult
  split_coalesced_messages msgs first_msg_at =
      split_from (length msgs - first_msg_at) first_msg_at 0 msgs

-- How many messages to read at once.
unfoldable pub gro_read_batch_size : ℕ → ℕ
gro_read_batch_size batch_size =
    let n = (batch_size + udp_segment_max_datagrams - 1) / udp_segment_max_datagrams in
    if ltb n 1 then 1 else if ltb batch_size n then batch_size else n
