-- ===== src/Gso.antt =====
-- UDP segmentation control messages: `getGSOSize` and `setGSOSize` of gso_linux.go.
--
-- The parsing loop takes the length of the control data as fuel; `starved` is a loop that did not
-- end with it.
pub mod Scan
pub mod Control
use batchudp.Prelude.{
  ℕ, zero, suc, ◌+◌, ◌-◌, Bool, List, ◌++◌, Option, none, some, ◌&&◌, length, take, drop, leb, ltb,
  ◌==◌, if◌then◌else◌,
}
use batchudp.Slice.{Slice, len, cap_of, append}
use batchudp.Unix.{Unix, Cmsghdr}

abbrev pub size_of_gso_data : ℕ
size_of_gso_data = 2

pub data GsoResult : Type 0 where
  size : ℕ → GsoResult
  parse_error : GsoResult
  starved : GsoResult

-- `copy(dst[off:], src)`, where all of `src` fits.
abbrev pub overwrite : List ℕ → ℕ → List ℕ → List ℕ
overwrite dst off src = take off dst ++ (src ++ drop (off + length src) dst)

module _ (u : Unix) where
  -- `hdr.Level == unix.SOL_UDP && hdr.Type == kind && len(data) >= sizeOfGSOData`
  unfoldable pub is_gso : ℕ → Cmsghdr → List ℕ → Bool
  is_gso kind h content =
      h.level == u.sol_udp && (h.type == kind && leb size_of_gso_data (length content))

  -- The loop of `getGSOSize`, for the control message type `kind`.
  unfoldable pub scan_go : ℕ → ℕ → List ℕ → GsoResult
  scan_go kind zero rem = if ltb u.sizeof_cmsghdr (length rem) then starved else size 0
  scan_go kind (suc fuel) rem =
      if ltb u.sizeof_cmsghdr (length rem)
      then elim (u.parse_one rem) [
        | none ↦ parse_error
        | some (hdr, content, rem') ↦
            let next = scan_go kind fuel rem' in
            if is_gso kind hdr content
            then size (u.decode_u16 (take size_of_gso_data content))
            else next
      ]
      else size 0

  unfoldable pub scan : ℕ → List ℕ → GsoResult
  scan kind control = scan_go kind (length control) control

  unfoldable pub get_gso_size : List ℕ → GsoResult
  get_gso_size control = scan u.udp_gro control

  -- the header that `setGSOSize` writes
  abbrev pub segment_hdr : Cmsghdr
  segment_hdr = record {
    hdr_len = u.cmsg_len size_of_gso_data;
    level = u.sol_udp;
    type = u.udp_segment;
  }

  unfoldable pub set_gso_size : Slice → ℕ → Slice
  set_gso_size control gso_size =
      let avail = cap_of control - len control in
      let space = u.cmsg_space size_of_gso_data in
      if ltb avail space
      then control
      else let with_hdr = overwrite control.spare 0 (u.encode_hdr segment_hdr) in
        let gso_control = overwrite with_hdr (u.cmsg_len 0) (u.encode_u16 gso_size) in
        record { bytes = control.bytes ++ take space gso_control; spare = drop space gso_control }
