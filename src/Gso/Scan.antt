-- ===== src/Gso/Scan.antt =====
-- The parsing loop: it ends within its fuel, skips other messages and stops at the first match.
use batchudp.Prelude.{
  ℕ, zero, suc, ◌+◌, ◌≤◌, ◌<◌, ◌≡◌, ◌≢◌, refl, ap, ◌∙◌, false, List, [], ◌∷◌, ◌++◌, map, some,
  length, take, flat, All, if◌then◌else◌, inl, inr, Option-cases, arith, length-append,
  append_assoc,
}
use batchudp.Unix.{Unix, UnixLaws, Cmsghdr}
use batchudp.Gso.{size, starved, is_gso, scan_go, scan, get_gso_size, size_of_gso_data}

-- A control message as it lies in a buffer: header, data, padding.
pub record Cmsg : Type 0 where
  pub hdr : Cmsghdr
  pub content : List ℕ
  pub pad : List ℕ

module _ (u : Unix) where
  abbrev pub encode : Cmsg → List ℕ
  encode c = u.encode_hdr c.hdr ++ (c.content ++ c.pad)

  abbrev pub control : List Cmsg → List ℕ
  control cs = flat (map encode cs)

  pub record IsWellFormed (c : Cmsg) : Type 0 where
    pub has_data : 0 < length c.content
    pub len_field : c.hdr.hdr_len ≡ u.cmsg_len (length c.content)
    pub padded :
        u.sizeof_cmsghdr + (length c.content + length c.pad) ≡ u.cmsg_space (length c.content)

  -- A message that the loop passes over.
  pub record IsOther (kind : ℕ) (c : Cmsg) : Type 0 where
    pub formed : IsWellFormed c
    pub other : is_gso u kind c.hdr c.content ≡ false

module _ (u : Unix) (laws : UnixLaws u) (kind : ℕ) where
  -- More fuel than the length changes nothing.
  scan_go-fuel :
      (f g : ℕ) (xs : List ℕ)
      → length xs ≤ f
      → length xs ≤ g
      → scan_go u kind f xs ≡ scan_go u kind g xs
  unfolding scan_go
  scan_go-fuel zero zero xs hf hg = refl
  scan_go-fuel zero (suc g) xs hf hg = ground arith
  scan_go-fuel (suc f) zero xs hf hg = ground arith
  scan_go-fuel (suc f) (suc g) xs hf hg = elim (Option-cases (u.parse_one xs)) [
    | inl e ↦ ground arith
    | inr ((h, d, r), e) ↦ ground (arith, laws.parse_one_shrinks xs h d r e, scan_go-fuel f g r)
  ]

  scan_go-ne-starved : (f : ℕ) (xs : List ℕ) → length xs ≤ f → scan_go u kind f xs ≢ starved
  unfolding scan_go
  scan_go-ne-starved zero xs hf = ground arith
  scan_go-ne-starved (suc f) xs hf = elim (Option-cases (u.parse_one xs)) [
    | inl e ↦ ground arith
    | inr ((h, d, r), e) ↦ ground (arith, laws.parse_one_shrinks xs h d r e, scan_go-ne-starved f r)
  ]

  pub scan-ne-starved : (xs : List ℕ) → scan u kind xs ≢ starved
  unfolding scan
  scan-ne-starved xs = scan_go-ne-starved (length xs) xs (omega arith)

  scan-step :
      (xs : List ℕ) (h : Cmsghdr) (d r : List ℕ)
      → u.sizeof_cmsghdr < length xs
      → u.parse_one xs ≡ some (h, d, r)
      → scan u kind xs ≡ (
          if is_gso u kind h d
          then size (u.decode_u16 (take size_of_gso_data d))
          else scan u kind r)
  unfolding scan scan_go
  scan-step [] h d r long e = absurd (omega arith)
  scan-step (x ∷ xs) h d r long e =
      ground (arith, laws.parse_one_shrinks (x ∷ xs) h d r e, scan_go-fuel (length xs) (length r) r)

  module _ (c : Cmsg) (wf : IsWellFormed u c) (rest : List ℕ) where
    pub parse-encode : u.parse_one (encode u c ++ rest) ≡ some (c.hdr, c.content, rest)
    parse-encode =
        ap u.parse_one (
          append_assoc (u.encode_hdr c.hdr) (c.content ++ c.pad) rest
          ∙ ap (◌++◌ (u.encode_hdr c.hdr)) (append_assoc c.content c.pad rest))
        ∙ laws.parse_one_lem c.hdr c.content c.pad rest wf.len_field wf.padded

    pub encode-long : u.sizeof_cmsghdr < length (encode u c ++ rest)
    encode-long = omega (
      arith,
      length-append (encode u c) rest,
      length-append (u.encode_hdr c.hdr) (c.content ++ c.pad),
      length-append c.content c.pad,
      laws.length-encode_hdr c.hdr,
      wf.has_data,
    )

    -- One message at the front, either the match or passed over.
    pub scan-encode : scan u kind (encode u c ++ rest) ≡ (
        if is_gso u kind c.hdr c.content
        then size (u.decode_u16 (take size_of_gso_data c.content))
        else scan u kind rest)
    scan-encode = scan-step (encode u c ++ rest) c.hdr c.content rest encode-long parse-encode

  -- Other messages in front do not matter.
  pub scan-others :
      (cs : List Cmsg) (rest : List ℕ)
      → All (IsOther u kind) cs
      → scan u kind (control u cs ++ rest) ≡ scan u kind rest
  scan-others [] rest h = refl
  scan-others (c ∷ cs) rest h =
      ap (scan u kind) (append_assoc (encode u c) (control u cs) rest)
      ∙ rw h.0.other at (scan-encode c h.0.formed (control u cs ++ rest))
      ∙ scan-others cs rest h.1

  pub scan-nil : scan u kind [] ≡ size 0
  unfolding scan scan_go
  scan-nil = ground arith

-- `getGSOSize` always ends, on any control data: each round takes at least a byte off.
pub get_gso_size-ne-starved :
    (u : Unix) (laws : UnixLaws u) (xs : List ℕ) → get_gso_size u xs ≢ starved
unfolding get_gso_size
get_gso_size-ne-starved u laws xs = scan-ne-starved u laws u.udp_gro xs
