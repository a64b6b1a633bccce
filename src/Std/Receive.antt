-- ===== src/Std/Receive.antt =====
-- The receive functions of bind_std.go: `makeReceiveIPv4`, `makeReceiveIPv6`, `receiveIP` and
-- `putMessages`.
pub mod Shut
use batchudp.Prelude.{
  ℕ, zero, suc, ◌-◌, Bool, true, false, not, ◌&&◌, Option, some, none, List, [], ◌∷◌, ◌++◌, length,
  take, drop, set, ltb, ◌==◌, if◌then◌else◌, map,
}
use batchudp.Unix.{Unix}
use batchudp.Slice.{
  set_first, Slice, Addr, zero_addr, v4, v6, AddrPort, UdpAddr, Msg, cap_of, reslice, starts_with,
}
use batchudp.Gso.{get_gso_size}
use batchudp.Sticky.{Endpoint, get_src_from_control}
use batchudp.Split.{
  sub_slice, SplitResult, SplitError, bad_control, overflowed, split, failed, panicked,
  split_coalesced_messages, gro_read_batch_size,
}
use batchudp.Conn.{validate_receive_buffers, network_down}
use batchudp.Std.{
  Err, err_closed, err_bad_control, err_split_overflow, Outcome, ok, err, Conn, Family, udp4, udp6,
  Bind, ReceiveFunc,
}

-- The readers of golang.org/x/net and of gonnect. A read returns the messages with what it filled
-- in of them; `read_batch` also how many it filled.
pub record Reader (W : Type 0) : Type 0 where
  pub read_batch : Conn → List Msg → W → W × Outcome (ℕ × List Msg)
  pub read_msg : Conn → Msg → W → W × Outcome Msg
  -- the network's `IsUp`, if it has one
  pub is_up : W → Option (Outcome Bool)

-- What the caller finds in `sizes` and `eps`; no endpoint where the entry is left as it was.
pub data Result : Type 0 where
  received : List (ℕ × Option Endpoint) → Result
  fails : Err → Result
  panics : Result

-- `netip.AddrFromSlice` and `Unmap`, with the port
unfoldable pub addr_from_slice : List ℕ → Addr
addr_from_slice ip = if length ip == 4 then v4 ip else if length ip == 16 then v6 ip else zero_addr

unfoldable pub unmap : Addr → Addr
unmap (v6 bs) =
    if starts_with 10 0 bs && starts_with 2 0xff (drop 10 bs) then v4 (drop 12 bs) else v6 bs
unmap (v4 bs) = v4 bs
unmap zero_addr = zero_addr

unfoldable pub source : UdpAddr → AddrPort
source a = record { addr = unmap (addr_from_slice a.ip); port = a.udp_port }

-- `OOB[:cap(OOB)]`
unfoldable pub extend_oob : Msg → Msg
extend_oob m = record m { oob = reslice m.oob (cap_of m.oob) }

-- The pooled messages with the caller's buffers; `none` where those run out, or a message has
-- no buffer.
unfoldable pub arm : List Slice → List Msg → Option (List Msg)
arm bufs [] = some []
arm [] (m ∷ ms) = none
arm (b ∷ bs) (m ∷ ms) = elim (set_first m.buffers b) [
  | none ↦ none
  | some buffers ↦ elim (arm bs ms) [
    | none ↦ none
    | some rest ↦ some (extend_oob (record m { buffers = buffers }) ∷ rest)
  ]
]

-- `putMessages`
unfoldable pub put_messages : List Msg → List Msg
put_messages = map (λ (m : Msg). record m { oob = reslice m.oob 0; addr = none; n = 0; nn = 0 })

unfoldable pub split_error : SplitError → Err
split_error bad_control = err_bad_control
split_error overflowed = err_split_overflow

-- `s.ipv4 == nil`, or `s.ipv6`
abbrev pub is_closed : Bind → Family → Bool
is_closed s udp4 = elim s.ipv4 [ none ↦ true | some c ↦ false ]
is_closed s udp6 = elim s.ipv6 [ none ↦ true | some c ↦ false ]

module _ (u : Unix) where
  -- One round of the last loop.
  unfoldable pub entry : Msg → Option (ℕ × Option Endpoint)
  entry m = if m.n == 0 then some (0, none) else elim m.addr [
    | none ↦ none
    | some a ↦ elim (sub_slice m.oob 0 m.nn) [
      | none ↦ none
      | some control ↦
          some (m.n, some (get_src_from_control u control (record { dst = source a; src = none })))
    ]
  ]

  -- The last loop; a missing address is a nil pointer, and control data beyond its buffer a
  -- slice bound out of range.
  unfoldable pub entries : List Msg → Option (List (ℕ × Option Endpoint))
  entries [] = some []
  entries (m ∷ ms) = elim (entry m) [
    | none ↦ none
    | some e ↦ elim (entries ms) [ none ↦ none | some es ↦ some (e ∷ es) ]
  ]

  unfoldable pub deliver : ℕ → List Msg → Result
  deliver n msgs = elim (entries (take n msgs)) [ none ↦ panics | some es ↦ received es ]

  module _ {W : Type 0} (k : Reader W) where
    unfoldable pub read_coalesced : Conn → List Msg → W → W × Result
    read_coalesced br msgs w =
        let read_at = length msgs - gro_read_batch_size (length msgs) in
        let (w', r) = k.read_batch br (drop read_at msgs) w in
        elim r [
          | err e ↦ (w', fails e)
          | ok (n, ms) ↦
              elim (split_coalesced_messages (get_gso_size u) (take read_at msgs ++ ms) read_at) [
                | split n' after ↦ (w', deliver n' after)
                | failed n' e after ↦ (w', fails (split_error e))
                | panicked ↦ (w', panics)
              ]
        ]

    unfoldable pub read_plain : Conn → List Msg → W → W × Result
    read_plain br msgs w =
        let (w', r) = k.read_batch br msgs w in
        elim r [ err e ↦ (w', fails e) | ok (n, ms) ↦ (w', deliver n ms) ]

    unfoldable pub read_single : Conn → List Msg → W → W × Result
    read_single c [] w = (w, panics)
    read_single c (m ∷ ms) w =
        let (w', r) = k.read_msg c m w in
        elim r [ err e ↦ (w', fails e) | ok m' ↦ (w', deliver 1 (m' ∷ ms)) ]

    unfoldable pub receive_ip :
        Bind → Option Conn → Conn → Bool → List Slice → ℕ → ℕ → List Msg → W → W × Result
    receive_ip s br c rx_offload bufs sizes eps msgs w =
        elim (validate_receive_buffers (length bufs) sizes eps s.batch_size) [
          | some e ↦ (w, fails e)
          | none ↦ elim (arm bufs msgs) [
            | none ↦ (w, panics)
            | some ready ↦ elim br [
              | none ↦ read_single c ready w
              | some b ↦
                  if rx_offload && ltb 1 (length ready)
                  then read_coalesced b ready w
                  else read_plain b ready w
            ]
          ]
        ]

    -- A call of a receive function.
    unfoldable pub call : ReceiveFunc → Bind → List Slice → ℕ → ℕ → List Msg → W → W × Result
    call fn s bufs sizes eps msgs w =
        if network_down (k.is_up w)
        then (w, fails err_closed)
        else if is_closed s fn.family
        then (w, fails err_closed)
        else receive_ip s fn.reader fn.conn fn.rx_offload bufs sizes eps msgs w
