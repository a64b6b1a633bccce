-- ===== src/Tests/Crossing.antt =====
-- Runs in which two sides meet: over the wire, and over the channels of bindtest.
use batchudp.Prelude.{
  ℕ, zero, suc, ◌≡◌, inl, refl, true, List, [], ◌∷◌, ◌++◌, some, none, replicate, arith, All,
}
use batchudp.Slice.{Msg, UdpAddr}
use batchudp.Gso.{get_gso_size, set_gso_size, scan, scan_go, is_gso}
use batchudp.Gso.Scan.{encode}
use batchudp.Std.Pack.{coalesce_messages, packer}
use batchudp.Coalesce.{coalesce, loop, step, start, place, finish, extend, fits}
use batchudp.Split.{split_coalesced_messages, gro_read_batch_size}
use batchudp.Split.Segments.{HasRoom}
use batchudp.Sticky.{set_src_control}
use batchudp.Wire.{Carried, all_read, one_read}
use batchudp.Wire.Arrival.{Arrives, split-coalesce}
use batchudp.Channel.{
  Label, on_left, on_right, brx4, puts, takes, quiet, Pair, Run, here, next, opens, closes, sends,
  receives, from_chan, new_channel_binds, open_channel, close_channel, send_round, left_bind,
  right_bind, made, shut, gets,
}
use batchudp.Channel.Traffic.{Faithful, Run-Faithful}
use batchudp.Tests.Layout.{cells, cells-UnixLaws, parse_cells}
use batchudp.Tests.Packing.{room, pooled, dest, pktinfo, pktinfo-IsOther, endpoint, bufs}

-- the two datagrams as one message, and then the second pooled message
abbrev packed : Msg
packed = record {
  buffers = record { bytes = 1 ∷ 2 ∷ 3 ∷ 4 ∷ 5 ∷ []; spare = replicate 7 0 } ∷ [];
  oob = record {
    bytes = encode cells pktinfo ++ (5 ∷ 17 ∷ 103 ∷ 0 ∷ 3 ∷ 0 ∷ []);
    spare = replicate 7 0;
  };
  addr = some dest;
  n = 0;
  nn = 0;
}

run :
    coalesce_messages dest endpoint bufs (pooled ∷ pooled ∷ []) (set_gso_size cells)
    ≡ some (1, packed ∷ pooled ∷ [])
unfolding coalesce_messages coalesce loop step start place finish extend fits packer set_gso_size
    set_src_control
run = refl

abbrev sender : UdpAddr
sender = record { ip = 10 ∷ 0 ∷ 0 ∷ 7 ∷ []; udp_port = 9 }

-- what the receiver reads of it
abbrev read_back : Msg
read_back = record {
  buffers = record { bytes = 1 ∷ 2 ∷ 3 ∷ 4 ∷ 5 ∷ []; spare = [] } ∷ [];
  oob = record { bytes = 5 ∷ 17 ∷ 104 ∷ 0 ∷ 3 ∷ 0 ∷ []; spare = [] };
  addr = some sender;
  n = 5;
  nn = 6;
}

abbrev slot : Msg
slot = record {
  buffers = record { bytes = replicate 5 0; spare = [] } ∷ [];
  oob = record { bytes = []; spare = [] };
  addr = none;
  n = 0;
  nn = 0;
}

slots-HasRoom : (n : ℕ) → All (HasRoom 5) (replicate n slot)
slots-HasRoom zero = tt
slots-HasRoom (suc n) = (record { has_buffer = omega arith; large = omega arith }, slots-HasRoom n)

carried : Carried cells sender 5 (packed ∷ []) (read_back ∷ [])
unfolding get_gso_size scan scan_go is_gso parse_cells
carried =
    one_read packed read_back [] []
      (record {
        filled = refl;
        has_bytes = omega arith;
        same_bytes = refl;
        same_size = refl;
        size_le = omega arith;
        held = omega arith;
        sender = refl;
        small = omega arith;
      })
      (all_read [] tt)

split-coalesce_example :
    Arrives sender bufs
      (split_coalesced_messages (get_gso_size cells) (replicate 63 slot ++ (read_back ∷ [])) 63)
unfolding gro_read_batch_size
split-coalesce_example =
    split-coalesce cells cells-UnixLaws sender 5 (encode cells pktinfo) (pktinfo ∷ []) dest endpoint
      bufs (pooled ∷ pooled ∷ []) 1 (packed ∷ pooled ∷ []) 1 (replicate 63 slot) (read_back ∷ [])
      refl (pktinfo-IsOther, tt) refl
      ((room 0, refl, omega arith), ((room 0, refl, omega arith), tt)) (omega arith)
      (omega arith, (omega arith, tt)) run carried (omega arith) refl refl (slots-HasRoom 63)
      (record { has_buffer = omega arith; large = omega arith }, tt)

abbrev both_open : Pair
both_open = record new_channel_binds { left = left_bind made; right = right_bind made }

abbrev sent_one : Pair
sent_one = record {
  left = left_bind made;
  right = right_bind made;
  chans = record { in_arx4 = []; in_brx4 = (7 ∷ 8 ∷ []) ∷ []; in_arx6 = []; in_brx6 = [] };
}

abbrev got_one : Pair
got_one = record sent_one {
  chans = record { in_arx4 = []; in_brx4 = []; in_arx6 = []; in_brx6 = [] };
}

-- the left side sends two bytes, the right side takes them with a buffer of one byte
abbrev talk : List Label
talk =
    quiet ∷ quiet ∷ puts on_left brx4 (7 ∷ 8 ∷ []) ∷ takes on_right brx4 (7 ∷ 8 ∷ []) ∷ quiet ∷ []

talked : Run new_channel_binds talk (record got_one { left = left_bind shut })
unfolding new_channel_binds open_channel close_channel send_round
talked =
    next
      {ls = quiet ∷ quiet ∷ puts on_left brx4 (7 ∷ 8 ∷ []) ∷ takes on_right brx4 (7 ∷ 8 ∷ []) ∷ []}
      {s = got_one} quiet
      (next {ls = quiet ∷ quiet ∷ puts on_left brx4 (7 ∷ 8 ∷ []) ∷ []} {s = sent_one}
        (takes on_right brx4 (7 ∷ 8 ∷ []))
        (next {ls = quiet ∷ quiet ∷ []} {s = both_open} (puts on_left brx4 (7 ∷ 8 ∷ []))
          (next {ls = quiet ∷ []} quiet (next {ls = []} quiet here (opens on_left true))
            (opens on_right true))
          (sends on_left 1 (7 ∷ 8 ∷ []) brx4 _ refl))
        (receives on_right brx4 1 (gets (7 ∷ []) 4) (7 ∷ 8 ∷ []) [] _ (inl refl) refl
          (from_chan (7 ∷ 8 ∷ []) [] refl) (λ h. ground arith)))
      (closes on_left)

Run-Faithful_example : Faithful talk (record got_one { left = left_bind shut })
Run-Faithful_example = Run-Faithful talk (record got_one { left = left_bind shut }) talked
