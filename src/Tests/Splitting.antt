-- ===== src/Tests/Splitting.antt =====
-- Runs of the splitting of received messages.
use batchudp.Prelude.{
  ℕ, zero, suc, ◌≡◌, ◌≢◌, ◌+◌, refl, List, [], ◌∷◌, ◌++◌, some, none, replicate, length, arith, All,
}
use batchudp.Slice.{Msg, UdpAddr}
use batchudp.Gso.{GsoResult, size}
use batchudp.Split.{split, split_coalesced_messages, gro_read_batch_size, num_to_split}
use batchudp.Split.Segments.{HasRoom}
use batchudp.Prelude.Chunks.{chunks, chunk_go}
use batchudp.Split.Outer.{
  segments, read, no_more, Splits, received, split_coalesced_messages-Splits,
}
use batchudp.Split.Overflow.{split_coalesced_messages-overflow}
use batchudp.Split.Window.{IsRead, filled, gro_window-Splits}

abbrev slot : Msg
slot = record {
  buffers = record { bytes = replicate 4 0; spare = [] } ∷ [];
  oob = record { bytes = []; spare = [] };
  addr = none;
  n = 0;
  nn = 0;
}

abbrev sender : UdpAddr
sender = record { ip = 10 ∷ 0 ∷ 0 ∷ 7 ∷ []; udp_port = 9 }

-- three bytes in segments of two
abbrev message : Msg
message = record {
  buffers = record { bytes = 1 ∷ 2 ∷ 3 ∷ 0 ∷ []; spare = [] } ∷ [];
  oob = record { bytes = []; spare = [] };
  addr = some sender;
  n = 3;
  nn = 0;
}

abbrev in_twos : List ℕ → GsoResult
in_twos control = size 2

slot-HasRoom : HasRoom 4 slot
slot-HasRoom = record { has_buffer = omega arith; large = omega arith }

message-HasRoom : HasRoom 4 message
message-HasRoom = record { has_buffer = omega arith; large = omega arith }

slots-HasRoom : (n : ℕ) → All (HasRoom 4) (replicate n slot)
slots-HasRoom zero = tt
slots-HasRoom (suc n) = (slot-HasRoom, slots-HasRoom n)

message-cut : length (segments message 2) ≡ 2
unfolding chunks chunk_go
message-cut = refl

message-IsRead : IsRead in_twos 4 message
message-IsRead =
    filled 2 (omega arith) refl (omega arith) (omega arith) (omega arith) (omega arith)
      (omega (arith, message-cut))

split_coalesced_messages-Splits_example :
    Splits in_twos 4 0
      (slot ∷ [])
      (received in_twos (message ∷ []))
      (split_coalesced_messages in_twos (slot ∷ message ∷ []) 1)
split_coalesced_messages-Splits_example =
    split_coalesced_messages-Splits in_twos 4 (slot ∷ []) (message ∷ [])
      (read 1 0 message [] 2 (omega arith) refl (omega arith) (omega arith) (omega arith)
        (omega arith) (omega (arith, message-cut)) (no_more 2 (0 + length (segments message 2))))
      (slot-HasRoom, tt) (message-HasRoom, tt)

split_coalesced_messages-overflow_example :
    split_coalesced_messages in_twos (message ∷ []) 0 ≢ split 2 (message ∷ [])
split_coalesced_messages-overflow_example =
    split_coalesced_messages-overflow in_twos [] message [] 2 2 (message ∷ []) (omega arith) refl
      (unfold num_to_split in omega arith)

gro_window-Splits_example :
    Splits in_twos 4 0
      (replicate 63 slot)
      (received in_twos (message ∷ []))
      (split_coalesced_messages in_twos (replicate 63 slot ++ (message ∷ [])) 63)
unfolding gro_read_batch_size
gro_window-Splits_example =
    gro_window-Splits in_twos 4 1 (replicate 63 slot) (message ∷ []) (omega arith) refl refl
      (message-IsRead, tt) (slots-HasRoom 63) (message-HasRoom, tt)
