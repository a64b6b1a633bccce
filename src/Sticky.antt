-- ===== src/Sticky.antt =====
-- Sticky source addresses: sticky_linux.go. A received packet's PKTINFO control message is kept in
-- the endpoint, and written back on what is sent to it. The stubs of sticky_default.go keep nothing.
pub mod Capture
pub mod Source
use batchudp.Prelude.{
  ℕ, zero, suc, ◌+◌, ◌-◌, Bool, List, [], ◌++◌, Option, none, some, ◌&&◌, length, take, drop,
  replicate, leb, ltb, ◌==◌, if◌then◌else◌,
}
use batchudp.Slice.{Slice, len, cap_of, reslice, append, AddrPort}
use batchudp.Unix.{Unix, Cmsghdr}

-- `StdNetEndpoint`; `none` is a nil `src`.
pub record Endpoint : Type 0 where
  pub dst : AddrPort
  pub src : Option Slice

-- `ep.src`, where a nil slice reads as an empty one of no capacity.
abbrev pub src_slice : Option Slice → Slice
src_slice none = record { bytes = []; spare = [] }
src_slice (some s) = s

abbrev pub src_bytes : Endpoint → List ℕ
src_bytes ep = (src_slice ep.src).bytes

unfoldable pub clear_src : Endpoint → Endpoint
clear_src ep = elim ep.src [ none ↦ ep | some s ↦ record ep { src = some (reslice s 0) } ]

-- `copy(dst[off:], xs)`: as much as there is room for.
abbrev pub copy_at : List ℕ → ℕ → List ℕ → List ℕ
copy_at dst off xs =
    take off dst
    ++ (take (length dst - off) xs ++ drop (off + length (take (length dst - off) xs)) dst)

module _ (u : Unix) where
  -- The slice to fill, of length `space`: a new one where the old one is nil or too small.
  unfoldable pub room_for : ℕ → Option Slice → Slice
  room_for space none = reslice (record { bytes = []; spare = replicate space 0 }) space
  room_for space (some s) =
      if ltb (cap_of s) space
      then reslice (record { bytes = []; spare = replicate space 0 }) space
      else reslice s space

  -- The two `copy` calls: the header, then the data behind it.
  unfoldable pub store_src : ℕ → Cmsghdr → List ℕ → Endpoint → Endpoint
  store_src space hdr content ep =
      let s = room_for space ep.src in
      record ep {
        src = some (record s {
          bytes = copy_at (copy_at s.bytes 0 (u.encode_hdr hdr)) (u.cmsg_len 0) content;
        });
      }

  unfoldable pub is_pktinfo4 : Cmsghdr → Bool
  is_pktinfo4 h = h.level == u.ipproto_ip && h.type == u.ip_pktinfo

  unfoldable pub is_pktinfo6 : Cmsghdr → Bool
  is_pktinfo6 h = h.level == u.ipproto_ipv6 && h.type == u.ipv6_pktinfo

  -- The loop of `getSrcFromControl`. The fuel is the length of the control data; running out of it
  -- would leave the endpoint as it is.
  unfoldable pub get_src_go : ℕ → List ℕ → Endpoint → Endpoint
  get_src_go zero rem ep = ep
  get_src_go (suc fuel) rem ep =
      if ltb u.sizeof_cmsghdr (length rem)
      then elim (u.parse_one rem) [
        | none ↦ ep
        | some (hdr, content, rem') ↦
            let next = get_src_go fuel rem' ep in
            if is_pktinfo4 hdr
            then store_src (u.cmsg_space u.sizeof_inet4_pktinfo) hdr content ep
            else if is_pktinfo6 hdr
            then store_src (u.cmsg_space u.sizeof_inet6_pktinfo) hdr content ep
            else next
      ]
      else ep

  unfoldable pub get_src_from_control : List ℕ → Endpoint → Endpoint
  get_src_from_control control ep = get_src_go (length control) control (clear_src ep)

-- Too small a buffer is left as it is.
unfoldable pub set_src_control : Slice → List ℕ → Slice
set_src_control control src =
    if ltb (cap_of control) (length src) then control else append (reslice control 0) src
