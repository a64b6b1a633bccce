-- ===== src/Gso/Control.antt =====
-- What `setGSOSize` leaves in the control buffer, and that its size is read back.
use batchudp.Prelude.{
  ℕ, ◌+◌, ◌-◌, ◌^◌, ◌≤◌, ◌<◌, ◌≡◌, sym, ap, ap₂, ◌∙◌, true, false, List, [], ◌++◌, length, take,
  drop, All, ltb, inl, inr, Bool-cases, arith, ltb→lt, lt→ltb, length-append, append-nil,
  take-append_add, drop-append_add, take-length_append, take-all, length-drop, drop-drop,
  length-take,
}
use batchudp.Slice.{Slice, cap_of, len}
use batchudp.Unix.{Unix, UnixLaws}
use batchudp.Gso.{size, is_gso, scan, set_gso_size, segment_hdr, overwrite}
use batchudp.Gso.Scan.{Cmsg, IsWellFormed, IsOther, encode, control, scan-others, scan-encode}

module _ (u : Unix) (laws : UnixLaws u) (c : Slice) (k : ℕ) where
  -- The padding is what lay in the buffer before.
  abbrev pub segment : Cmsg
  segment = record {
    hdr = segment_hdr u;
    content = u.encode_u16 k;
    pad = take (u.cmsg_space 2 - u.cmsg_len 2) (drop (u.sizeof_cmsghdr + 2) c.spare);
  }

  abbrev written : List ℕ
  written = u.encode_hdr (segment_hdr u) ++ (u.encode_u16 k ++ drop (u.sizeof_cmsghdr + 2) c.spare)

  hdr_written :
      overwrite (overwrite c.spare 0 (u.encode_hdr (segment_hdr u))) (u.cmsg_len 0) (u.encode_u16 k)
      ≡ written
  hdr_written =
      ap
        (λ xs.
          take (u.cmsg_len 0) xs
          ++ (u.encode_u16 k ++ drop (u.cmsg_len 0 + length (u.encode_u16 k)) xs))
        first
      ∙ ap₂ (λ a b. a ++ (u.encode_u16 k ++ b))
          (take-append_add hdr (drop u.sizeof_cmsghdr c.spare) 0 (u.cmsg_len 0) here
            ∙ append-nil hdr)
          (drop-append_add hdr (drop u.sizeof_cmsghdr c.spare) 2
              (u.cmsg_len 0 + length (u.encode_u16 k))
              (omega (arith, here, laws.length-encode_u16 k))
            ∙ drop-drop u.sizeof_cmsghdr 2 c.spare)
    where
      hdr : List ℕ
      hdr = u.encode_hdr (segment_hdr u)

      here : u.cmsg_len 0 ≡ length hdr + 0
      here = omega (arith, laws.cmsg_len_lem 0, laws.length-encode_hdr (segment_hdr u))

      first : overwrite c.spare 0 hdr ≡ hdr ++ drop u.sizeof_cmsghdr c.spare
      first =
          let e : 0 + length hdr ≡ u.sizeof_cmsghdr =
            omega (arith, laws.length-encode_hdr (segment_hdr u)) in
          ap (λ n. hdr ++ drop n c.spare) e

  set_gso_size-full : length c.spare < u.cmsg_space 2 → set_gso_size u c k ≡ c
  unfolding set_gso_size
  set_gso_size-full h = rw (lt→ltb (cap_of c - len c) (u.cmsg_space 2) (omega arith))

  prefix_lem : take (u.cmsg_space 2) written ≡ encode u segment
  prefix_lem =
      take-append_add (u.encode_hdr (segment_hdr u))
        (u.encode_u16 k ++ drop (u.sizeof_cmsghdr + 2) c.spare)
        (2 + (u.cmsg_space 2 - u.cmsg_len 2)) (u.cmsg_space 2)
        (omega (
          arith,
          laws.cmsg_len_lem 2,
          laws.cmsg_len-le-space 2,
          laws.length-encode_hdr (segment_hdr u),
        ))
      ∙ ap (◌++◌ (u.encode_hdr (segment_hdr u))) (
          take-append_add (u.encode_u16 k) (drop (u.sizeof_cmsghdr + 2) c.spare)
            (u.cmsg_space 2 - u.cmsg_len 2) (2 + (u.cmsg_space 2 - u.cmsg_len 2))
            (omega (arith, laws.length-encode_u16 k)))

  module _ (room : u.cmsg_space 2 ≤ length c.spare) where
    set_gso_size-bytes : (set_gso_size u c k).bytes ≡ c.bytes ++ encode u segment
    unfolding set_gso_size
    set_gso_size-bytes =
        let enough : ltb (cap_of c - len c) (u.cmsg_space 2) ≡ false = ground arith in
        rw enough (
          ap (λ xs. c.bytes ++ take (u.cmsg_space 2) xs) hdr_written ∙ ap (◌++◌ c.bytes) prefix_lem)

    segment-IsWellFormed : IsWellFormed u segment
    segment-IsWellFormed = record {
      has_data = omega (arith, laws.length-encode_u16 k);
      len_field = ap u.cmsg_len (sym (laws.length-encode_u16 k));
      padded = omega (
        arith,
        ap u.cmsg_space (laws.length-encode_u16 k),
        laws.cmsg_len_lem 2,
        laws.cmsg_len-le-space 2,
        laws.length-encode_u16 k,
        length-take (u.cmsg_space 2 - u.cmsg_len 2) (drop (u.sizeof_cmsghdr + 2) c.spare),
        length-drop (u.sizeof_cmsghdr + 2) c.spare,
      );
    }

    segment-is_gso : is_gso u u.udp_segment (segment_hdr u) (u.encode_u16 k) ≡ true
    unfolding is_gso
    segment-is_gso = ground (arith, laws.length-encode_u16 k)

-- A control buffer with room gets one message more behind what it holds, keeps its capacity, and
-- the kernel reads the size back from it; a buffer without room stays as it is.
pub record Sets (u : Unix) (c : Slice) (k : ℕ) (c' : Slice) : Type 0 where
  pub keeps_cap : cap_of c' ≡ cap_of c
  pub without_room : length c.spare < u.cmsg_space 2 → c' ≡ c
  pub grows : u.cmsg_space 2 ≤ length c.spare → len c' ≡ len c + u.cmsg_space 2
  pub keeps : u.cmsg_space 2 ≤ length c.spare → take (len c) c'.bytes ≡ c.bytes
  pub reads :
      u.cmsg_space 2 ≤ length c.spare
      → k < 2 ^ 16
      → (cs : List Cmsg) → c.bytes ≡ control u cs
      → All (IsOther u u.udp_segment) cs
      → scan u u.udp_segment c'.bytes ≡ size k

module _ (u : Unix) (laws : UnixLaws u) (c : Slice) (k : ℕ) where
  length-segment :
      u.cmsg_space 2 ≤ length c.spare → length (encode u (segment u laws c k)) ≡ u.cmsg_space 2
  length-segment room = omega (
    arith,
    length-append (u.encode_hdr (segment_hdr u)) (u.encode_u16 k ++ (segment u laws c k).pad),
    length-append (u.encode_u16 k) (segment u laws c k).pad,
    laws.length-encode_hdr (segment_hdr u),
    laws.length-encode_u16 k,
    (segment-IsWellFormed u laws c k room).padded,
    ap u.cmsg_space (laws.length-encode_u16 k),
  )

  length-spare_after :
      u.cmsg_space 2 ≤ length c.spare
      → length (set_gso_size u c k).spare + u.cmsg_space 2 ≡ length c.spare
  unfolding set_gso_size
  length-spare_after room =
      let enough : ltb (cap_of c - len c) (u.cmsg_space 2) ≡ false = ground arith in
      rw (enough, hdr_written u laws c k)
        (omega (
          arith,
          length-drop (u.cmsg_space 2) (written u laws c k),
          length-append (u.encode_hdr (segment_hdr u))
              (u.encode_u16 k ++ drop (u.sizeof_cmsghdr + 2) c.spare),
          length-append (u.encode_u16 k) (drop (u.sizeof_cmsghdr + 2) c.spare),
          laws.length-encode_hdr (segment_hdr u),
          laws.length-encode_u16 k,
          length-drop (u.sizeof_cmsghdr + 2) c.spare,
          laws.cmsg_len_lem 2,
          laws.cmsg_len-le-space 2,
        ))

  pub reads_back :
      (cs : List Cmsg)
      → u.cmsg_space 2 ≤ length c.spare
      → k < 2 ^ 16
      → c.bytes ≡ control u cs
      → All (IsOther u u.udp_segment) cs
      → scan u u.udp_segment (set_gso_size u c k).bytes ≡ size k
  reads_back cs room small e others =
      ap (scan u u.udp_segment)
        (set_gso_size-bytes u laws c k room ∙ ap (λ x. x ++ encode u (segment u laws c k)) e)
      ∙ scan-others u laws u.udp_segment cs (encode u (segment u laws c k)) others
      ∙ ap (scan u u.udp_segment) (sym (append-nil (encode u (segment u laws c k))))
      ∙ rw (segment-is_gso u laws c k room) at (
          scan-encode u laws u.udp_segment (segment u laws c k)
            (segment-IsWellFormed u laws c k room) [])
      ∙ ap size (
          ap u.decode_u16 (take-all 2 (u.encode_u16 k) (omega (arith, laws.length-encode_u16 k)))
          ∙ laws.decode-encode_u16 k small)

  pub set_gso_size-Sets : Sets u c k (set_gso_size u c k)
  set_gso_size-Sets = record {
    keeps_cap = kept;
    without_room = set_gso_size-full u laws c k;
    grows = grown;
    keeps = λ room.
        ap (take (len c)) (set_gso_size-bytes u laws c k room)
        ∙ take-length_append c.bytes (encode u (segment u laws c k));
    reads = λ room small cs e others. reads_back cs room small e others;
  }
    where
      grown : u.cmsg_space 2 ≤ length c.spare → len (set_gso_size u c k) ≡ len c + u.cmsg_space 2
      grown room = omega (
        arith,
        ap length (set_gso_size-bytes u laws c k room),
        length-append c.bytes (encode u (segment u laws c k)),
        length-segment room,
      )

      kept : cap_of (set_gso_size u c k) ≡ cap_of c
      kept = elim (Bool-cases (ltb (length c.spare) (u.cmsg_space 2))) [
        | inl full ↦ ap cap_of (set_gso_size-full u laws c k (ltb→lt _ _ full))
        | inr free ↦
            let room : u.cmsg_space 2 ≤ length c.spare = ground arith in
            omega (arith, grown room, length-spare_after room)
      ]
