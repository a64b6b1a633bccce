-- ===== src/Sticky/Capture.antt =====
-- What the endpoint keeps of the control data of a received packet.
use batchudp.Prelude.{
  ℕ, zero, suc, ◌+◌, ◌-◌, ◌≤◌, ◌<◌, ◌≡◌, refl, sym, ap, ap₂, subst, ◌∙◌, true, false, List, [], ◌∷◌,
  ◌++◌, Option, none, some, length, take, drop, replicate, All, ltb, inl, inr, Bool-cases,
  Option-cases, arith, lt→ltb, length-append, append_assoc, append-nil, take-append_add,
  drop-append_add, take-all, length-drop, length-take, drop-drop, length-replicate,
}
use batchudp.Slice.{Slice, cap_of}
use batchudp.Unix.{Unix, UnixLaws, Cmsghdr}
use batchudp.Gso.Scan.{Cmsg, IsWellFormed, encode, control, parse-encode, encode-long}
use batchudp.Sticky.{
  Endpoint, src_bytes, clear_src, copy_at, room_for, store_src, is_pktinfo4, is_pktinfo6,
  get_src_go, get_src_from_control,
}

src_bytes-clear_src : (ep : Endpoint) → src_bytes (clear_src ep) ≡ []
unfolding clear_src
src_bytes-clear_src ep = elim (Option-cases ep.src) [
  | inl e ↦ ground arith
  | inr (s, e) ↦ ground arith
]

dst-clear_src : (ep : Endpoint) → (clear_src ep).dst ≡ ep.dst
unfolding clear_src
dst-clear_src ep = ground arith

-- A copy behind a prefix `a`, where all of `xs` fits.
copy_at-behind :
    (a b xs : List ℕ) (off : ℕ)
    → off ≡ length a
    → length xs ≤ length b
    → copy_at (a ++ b) off xs ≡ a ++ (xs ++ drop (length xs) b)
copy_at-behind a b xs off e fit =
    ap (λ ys. take off (a ++ b) ++ (ys ++ drop (off + length ys) (a ++ b)))
      (take-all (length (a ++ b) - off) xs (omega (arith, length-append a b)))
    ∙ ap₂ (λ p q. p ++ (xs ++ q)) (take-append_add a b 0 off (omega arith) ∙ append-nil a)
        (drop-append_add a b (length xs) (off + length xs) (omega arith))

module _ (u : Unix) where
  length-fresh : (space : ℕ) → length (room_for u space none).bytes ≡ space
  unfolding room_for
  length-fresh space =
      omega (arith, length-take space (replicate space zero), length-replicate space zero)

  length-room_for : (space : ℕ) (o : Option Slice) → length (room_for u space o).bytes ≡ space
  unfolding room_for
  length-room_for space none = length-fresh space
  length-room_for space (some s) = elim (Bool-cases (ltb (cap_of s) space)) [
    | inl small ↦ rw small (length-fresh space)
    | inr large ↦ rw large (
        let fit : space ≤ cap_of s = ground arith in
        omega (arith, length-take space (s.bytes ++ s.spare), length-append s.bytes s.spare))
  ]

  module _ (laws : UnixLaws u) (hdr : Cmsghdr) (content : List ℕ) (ep : Endpoint) where
    -- The copy in the endpoint: the padding is what its buffer held.
    pub kept : Cmsg
    kept = record {
      hdr = hdr;
      content = content;
      pad =
          drop (u.sizeof_cmsghdr + length content)
            (room_for u (u.cmsg_space (length content)) ep.src).bytes;
    }

    module _ (len_field : hdr.hdr_len ≡ u.cmsg_len (length content))
        (has_data : 0 < length content) where
      kept-IsWellFormed : IsWellFormed u kept
      unfolding kept
      kept-IsWellFormed = record {
        has_data = has_data;
        len_field = len_field;
        padded = omega (
          arith,
          length-drop (u.sizeof_cmsghdr + length content)
              (room_for u (u.cmsg_space (length content)) ep.src).bytes,
          length-room_for (u.cmsg_space (length content)) ep.src,
          laws.cmsg_len_lem (length content),
          laws.cmsg_len-le-space (length content),
        );
      }

      src_bytes-store_src :
          src_bytes (store_src u (u.cmsg_space (length content)) hdr content ep) ≡ encode u kept
      unfolding store_src kept
      src_bytes-store_src =
          ap (λ xs. copy_at xs (u.cmsg_len 0) content)
            (copy_at-behind [] room (u.encode_hdr hdr) 0 refl
              (omega (arith, laws.length-encode_hdr hdr, size)))
          ∙ copy_at-behind (u.encode_hdr hdr) (drop (length (u.encode_hdr hdr)) room) content
              (u.cmsg_len 0) (omega (arith, laws.cmsg_len_lem 0, laws.length-encode_hdr hdr))
              (omega (
                arith,
                length-drop (length (u.encode_hdr hdr)) room,
                laws.length-encode_hdr hdr,
                size,
              ))
          ∙ ap (λ xs. u.encode_hdr hdr ++ (content ++ xs))
              (drop-drop (length (u.encode_hdr hdr)) (length content) room
                ∙ ap (λ n. drop (n + length content) room) (laws.length-encode_hdr hdr))
        where
          room : List ℕ
          room = (room_for u (u.cmsg_space (length content)) ep.src).bytes

          size : u.sizeof_cmsghdr + length content ≤ length room
          size = omega (
            arith,
            length-room_for (u.cmsg_space (length content)) ep.src,
            laws.cmsg_len_lem (length content),
            laws.cmsg_len-le-space (length content),
          )

  -- A message that the loop passes over.
  pub record IsPassed (c : Cmsg) : Type 0 where
    pub formed : IsWellFormed u c
    pub not4 : is_pktinfo4 u c.hdr ≡ false
    pub not6 : is_pktinfo6 u c.hdr ≡ false

  -- A PKTINFO message of its family's size.
  pub data IsPktinfo (c : Cmsg) : Type 0 where
    family4 : is_pktinfo4 u c.hdr ≡ true → length c.content ≡ u.sizeof_inet4_pktinfo → IsPktinfo c
    family6 :
        is_pktinfo4 u c.hdr ≡ false
        → is_pktinfo6 u c.hdr ≡ true
        → length c.content ≡ u.sizeof_inet6_pktinfo
        → IsPktinfo c

  module _ (laws : UnixLaws u) (ep : Endpoint) where
    go-other :
        (fuel : ℕ) (c : Cmsg) (rest : List ℕ)
        → length (encode u c ++ rest) ≤ suc fuel
        → IsPassed c
        → (get_src_go u (suc fuel) (encode u c ++ rest) ep ≡ get_src_go u fuel rest ep)
          × (length rest ≤ fuel)
    unfolding get_src_go
    go-other fuel c rest enough passed = (
      rw (
        lt→ltb _ _ (encode-long u laws 0 c passed.formed rest),
        parse-encode u laws 0 c passed.formed rest,
        passed.not4,
        passed.not6,
      ),
      omega (arith, laws.parse_one_shrinks _ _ _ _ (parse-encode u laws 0 c passed.formed rest)),
    )

    go-others :
        (fuel : ℕ) (cs : List Cmsg) (rest : List ℕ)
        → length (control u cs ++ rest) ≤ fuel
        → All IsPassed cs
        → (n : ℕ) × (get_src_go u fuel (control u cs ++ rest) ep ≡ get_src_go u n rest ep)
          × (length rest ≤ n)
    go-others fuel [] rest enough h = (fuel, refl, enough)
    go-others zero (c ∷ cs) rest enough h = absurd (
        omega (
          arith,
          encode-long u laws 0 c h.0.formed (control u cs ++ rest),
          ap length (append_assoc (encode u c) (control u cs) rest),
        ))
    go-others (suc fuel) (c ∷ cs) rest enough h =
        let shape : control u (c ∷ cs) ++ rest ≡ encode u c ++ (control u cs ++ rest) =
          append_assoc (encode u c) (control u cs) rest in
        let one : (get_src_go u (suc fuel) (encode u c ++ (control u cs ++ rest)) ep
              ≡ get_src_go u fuel (control u cs ++ rest) ep)
            × (length (control u cs ++ rest) ≤ fuel) =
          go-other fuel c (control u cs ++ rest) (omega (arith, ap length shape)) h.0 in
        let (n, e, enough') = go-others fuel cs rest one.1 h.1 in
        (n, ap (λ xs. get_src_go u (suc fuel) xs ep) shape ∙ one.0 ∙ e, enough')

    go-found :
        (fuel : ℕ) (c : Cmsg) (rest : List ℕ)
        → length (encode u c ++ rest) ≤ fuel
        → IsWellFormed u c
        → IsPktinfo c
        → get_src_go u fuel (encode u c ++ rest) ep
          ≡ store_src u (u.cmsg_space (length c.content)) c.hdr c.content ep
    unfolding get_src_go
    go-found zero c rest enough wf k = absurd (omega (arith, encode-long u laws 0 c wf rest))
    go-found (suc fuel) c rest enough wf (family4 is size) =
        rw (lt→ltb _ _ (encode-long u laws 0 c wf rest), parse-encode u laws 0 c wf rest, is, size)
    go-found (suc fuel) c rest enough wf (family6 not is size) = rw (
      lt→ltb _ _ (encode-long u laws 0 c wf rest),
      parse-encode u laws 0 c wf rest,
      not,
      is,
      size,
    )

    go-nil : (fuel : ℕ) → get_src_go u fuel [] ep ≡ ep
    unfolding get_src_go
    go-nil zero = refl
    go-nil (suc fuel) = ground arith

-- The endpoint holds a control message with the header and the data of `c`, and its own padding.
pub record Captured (u : Unix) (c : Cmsg) (ep : Endpoint) : Type 0 where
  pub copy : Cmsg
  pub copy_hdr : copy.hdr ≡ c.hdr
  pub copy_content : copy.content ≡ c.content
  pub copy_formed : IsWellFormed u copy
  pub is_src : src_bytes ep ≡ encode u copy

store_src-Captured :
    (u : Unix) (laws : UnixLaws u) (c : Cmsg) (ep : Endpoint)
    → IsWellFormed u c
    → Captured u c (store_src u (u.cmsg_space (length c.content)) c.hdr c.content ep)
unfolding kept
store_src-Captured u laws c ep wf = record {
  copy = kept u laws c.hdr c.content ep;
  copy_hdr = refl;
  copy_content = refl;
  copy_formed = kept-IsWellFormed u laws c.hdr c.content ep wf.len_field wf.has_data;
  is_src = src_bytes-store_src u laws c.hdr c.content ep wf.len_field wf.has_data;
}

dst-store_src :
    (u : Unix) (space : ℕ) (h : Cmsghdr) (content : List ℕ) (ep : Endpoint)
    → (store_src u space h content ep).dst ≡ ep.dst
unfolding store_src
dst-store_src u space h content ep = refl

module _ (u : Unix) (laws : UnixLaws u) (cs : List Cmsg) (ep : Endpoint)
    (passed : All (IsPassed u) cs) where
  -- Behind any messages of other types, the first PKTINFO message of a packet is kept whole in the
  -- endpoint, whatever the endpoint held before; the destination stays.
  pub get_src_from_control-Captured :
      (c : Cmsg) (rest : List ℕ)
      → IsWellFormed u c
      → IsPktinfo u c
      → Captured u c (get_src_from_control u (control u cs ++ (encode u c ++ rest)) ep)
        × ((get_src_from_control u (control u cs ++ (encode u c ++ rest)) ep).dst ≡ ep.dst)
  unfolding get_src_from_control
  get_src_from_control-Captured c rest wf k =
      let (n, e, enough) =
        go-others u laws (clear_src ep) (length (control u cs ++ (encode u c ++ rest))) cs
          (encode u c ++ rest) (omega arith) passed in
      subst (λ x. Captured u c x × (x.dst ≡ ep.dst))
        (sym (e ∙ go-found u laws (clear_src ep) n c rest enough wf k))
        (
          store_src-Captured u laws c (clear_src ep) wf,
          dst-store_src u _ c.hdr c.content (clear_src ep) ∙ dst-clear_src ep,
        )

  -- Without a PKTINFO message the endpoint's source is cleared; the destination stays.
  pub get_src_from_control-cleared :
      (src_bytes (get_src_from_control u (control u cs) ep) ≡ [])
      × ((get_src_from_control u (control u cs) ep).dst ≡ ep.dst)
  unfolding get_src_from_control
  get_src_from_control-cleared =
      let (n, e, enough) =
        go-others u laws (clear_src ep) (length (control u cs)) cs []
          (omega (arith, ap length (append-nil (control u cs)))) passed in
      subst (λ x. (src_bytes x ≡ []) × (x.dst ≡ ep.dst))
        (sym (
          ap (λ xs. get_src_go u (length (control u cs)) xs (clear_src ep))
            (sym (append-nil (control u cs)))
          ∙ e
          ∙ go-nil u laws (clear_src ep) n))
        (src_bytes-clear_src ep, dst-clear_src ep)
