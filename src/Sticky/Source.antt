-- ===== src/Sticky/Source.antt =====
-- `SrcIP` and `SrcIfidx` of sticky_linux.go: what an endpoint says of its source.
use batchudp.Prelude.{
  ℕ, ◌≡◌, ◌≢◌, sym, ap, ◌∙◌, List, All, ◌++◌, length, drop, ◌==◌, if◌then◌else◌, arith, true, false,
  length-append, drop-append_add, eq→==, ne→==,
}
use batchudp.Slice.{Addr, zero_addr, v4, v6}
use batchudp.Unix.{Unix, UnixLaws, Cmsghdr}
use batchudp.Gso.Scan.{Cmsg, IsWellFormed, encode, control}
use batchudp.Sticky.{is_pktinfo4, is_pktinfo6, Endpoint, src_bytes, get_src_from_control}
use batchudp.Sticky.Capture.{
  Captured, IsPassed, IsPktinfo, family4, family6, get_src_from_control-Captured,
}

-- The fields of the two packet information structures, by the memory they are read from; an
-- interface index is its 32 bits.
pub record PktinfoLayout : Type 0 where
  pub spec_dst : List ℕ → List ℕ
  pub ifindex4 : List ℕ → ℕ
  pub addr6 : List ℕ → List ℕ
  pub ifindex6 : List ℕ → ℕ

module _ (u : Unix) (l : PktinfoLayout) where
  -- the memory at `&e.src[unix.CmsgLen(0)]`
  abbrev pub info_of : Endpoint → List ℕ
  info_of ep = drop (u.cmsg_len 0) (src_bytes ep)

  unfoldable pub src_ip : Endpoint → Addr
  src_ip ep =
      if length (src_bytes ep) == u.cmsg_space u.sizeof_inet4_pktinfo
      then v4 (l.spec_dst (info_of ep))
      else if length (src_bytes ep) == u.cmsg_space u.sizeof_inet6_pktinfo
      then v6 (l.addr6 (info_of ep))
      else zero_addr

  unfoldable pub src_ifidx : Endpoint → ℕ
  src_ifidx ep =
      if length (src_bytes ep) == u.cmsg_space u.sizeof_inet4_pktinfo
      then l.ifindex4 (info_of ep)
      else if length (src_bytes ep) == u.cmsg_space u.sizeof_inet6_pktinfo
      then l.ifindex6 (info_of ep)
      else 0

-- A structure is read from its first bytes; the two have different sizes in a message.
pub record LayoutLaws (u : Unix) (l : PktinfoLayout) : Type 0 where
  pub spec_dst-append :
      (xs ys : List ℕ) → length xs ≡ u.sizeof_inet4_pktinfo → l.spec_dst (xs ++ ys) ≡ l.spec_dst xs
  pub ifindex4-append :
      (xs ys : List ℕ) → length xs ≡ u.sizeof_inet4_pktinfo → l.ifindex4 (xs ++ ys) ≡ l.ifindex4 xs
  pub addr6-append :
      (xs ys : List ℕ) → length xs ≡ u.sizeof_inet6_pktinfo → l.addr6 (xs ++ ys) ≡ l.addr6 xs
  pub ifindex6-append :
      (xs ys : List ℕ) → length xs ≡ u.sizeof_inet6_pktinfo → l.ifindex6 (xs ++ ys) ≡ l.ifindex6 xs
  pub sizes_differ : u.cmsg_space u.sizeof_inet6_pktinfo ≢ u.cmsg_space u.sizeof_inet4_pktinfo

module _ (u : Unix) (laws : UnixLaws u) (l : PktinfoLayout) (layout : LayoutLaws u l) (c : Cmsg)
    (ep : Endpoint) (held : Captured u c ep) where
  length-src : length (src_bytes ep) ≡ u.cmsg_space (length c.content)
  length-src =
      ap length held.is_src
      ∙ length-append (u.encode_hdr held.copy.hdr) (held.copy.content ++ held.copy.pad)
      ∙ omega (
        arith,
        laws.length-encode_hdr held.copy.hdr,
        length-append held.copy.content held.copy.pad,
        held.copy_formed.padded,
        ap u.cmsg_space (ap length held.copy_content),
      )

  info_lem : info_of u l ep ≡ c.content ++ held.copy.pad
  info_lem =
      ap (drop (u.cmsg_len 0)) held.is_src
      ∙ drop-append_add (u.encode_hdr held.copy.hdr) (held.copy.content ++ held.copy.pad) 0
          (u.cmsg_len 0) (omega (arith, laws.length-encode_hdr held.copy.hdr, laws.cmsg_len_lem 0))
      ∙ ap (λ x. x ++ held.copy.pad) held.copy_content

  src_ip-four :
      length c.content ≡ u.sizeof_inet4_pktinfo
      → (src_ip u l ep ≡ v4 (l.spec_dst c.content)) × (src_ifidx u l ep ≡ l.ifindex4 c.content)
  unfolding src_ip src_ifidx
  src_ip-four size =
      let four : (length (src_bytes ep) == u.cmsg_space u.sizeof_inet4_pktinfo) ≡ true =
        eq→== _ _ (length-src ∙ ap u.cmsg_space size) in
      (
        rw (four, src_ip)
            (ap v4 (ap l.spec_dst info_lem ∙ layout.spec_dst-append c.content held.copy.pad size)),
        rw (four, src_ifidx)
            (ap l.ifindex4 info_lem ∙ layout.ifindex4-append c.content held.copy.pad size),
      )

  src_ip-six :
      length c.content ≡ u.sizeof_inet6_pktinfo
      → (src_ip u l ep ≡ v6 (l.addr6 c.content)) × (src_ifidx u l ep ≡ l.ifindex6 c.content)
  unfolding src_ip src_ifidx
  src_ip-six size =
      let long : length (src_bytes ep) ≡ u.cmsg_space u.sizeof_inet6_pktinfo =
        length-src ∙ ap u.cmsg_space size in
      let not_four : (length (src_bytes ep) == u.cmsg_space u.sizeof_inet4_pktinfo) ≡ false =
        ne→== _ _ (λ h. layout.sizes_differ (sym long ∙ h)) in
      let six : (length (src_bytes ep) == u.cmsg_space u.sizeof_inet6_pktinfo) ≡ true =
        eq→== _ _ long in
      (
        rw (not_four, six, src_ip)
            (ap v6 (ap l.addr6 info_lem ∙ layout.addr6-append c.content held.copy.pad size)),
        rw (not_four, six, src_ifidx)
            (ap l.ifindex6 info_lem ∙ layout.ifindex6-append c.content held.copy.pad size),
      )

-- The source that a message carries: of an IPv4 PKTINFO message an IPv4 address and the index beside
-- it, and of an IPv6 one, which is none of IPv4, an IPv6 address and the index beside that.
pub data Says (u : Unix) (l : PktinfoLayout) (c : Cmsg) : Addr → ℕ → Type 0 where
  says4 :
      c.hdr.level ≡ u.ipproto_ip
      → c.hdr.type ≡ u.ip_pktinfo
      → Says u l c (v4 (l.spec_dst c.content)) (l.ifindex4 c.content)
  says6 :
      ¬ ((c.hdr.level ≡ u.ipproto_ip) × (c.hdr.type ≡ u.ip_pktinfo))
      → c.hdr.level ≡ u.ipproto_ipv6
      → c.hdr.type ≡ u.ipv6_pktinfo
      → Says u l c (v6 (l.addr6 c.content)) (l.ifindex6 c.content)

is_pktinfo4-on :
    (u : Unix) (h : Cmsghdr)
    → is_pktinfo4 u h ≡ true
    → (h.level ≡ u.ipproto_ip) × (h.type ≡ u.ip_pktinfo)
unfolding is_pktinfo4
is_pktinfo4-on u h e = ground arith

is_pktinfo4-off :
    (u : Unix) (h : Cmsghdr)
    → is_pktinfo4 u h ≡ false
    → ¬ ((h.level ≡ u.ipproto_ip) × (h.type ≡ u.ip_pktinfo))
unfolding is_pktinfo4
is_pktinfo4-off u h e both = ground arith

is_pktinfo6-on :
    (u : Unix) (h : Cmsghdr)
    → is_pktinfo6 u h ≡ true
    → (h.level ≡ u.ipproto_ipv6) × (h.type ≡ u.ipv6_pktinfo)
unfolding is_pktinfo6
is_pktinfo6-on u h e = ground arith

-- Behind any messages of other types, the address and the interface index in the first PKTINFO
-- message of a packet, read as its level and type say, are what `SrcIP` and `SrcIfidx` then give of
-- the endpoint, whatever source it had before.
pub src_ip-get_src_from_control :
    (u : Unix) (laws : UnixLaws u) (l : PktinfoLayout)
    → LayoutLaws u l
    → (cs : List Cmsg) (c : Cmsg) (rest : List ℕ) (ep : Endpoint) → All (IsPassed u) cs
    → IsWellFormed u c
    → IsPktinfo u c
    → Says u l c
        (src_ip u l (get_src_from_control u (control u cs ++ (encode u c ++ rest)) ep))
        (src_ifidx u l (get_src_from_control u (control u cs ++ (encode u c ++ rest)) ep))
src_ip-get_src_from_control u laws l layout cs c rest ep passed wf (family4 k size) =
    let held : Captured u c (get_src_from_control u (control u cs ++ (encode u c ++ rest)) ep) =
      (get_src_from_control-Captured u laws cs ep passed c rest wf (family4 k size)).0 in
    let both = src_ip-four u laws l layout c _ held size in
    let is = is_pktinfo4-on u c.hdr k in rw (both.0, both.1) (says4 is.0 is.1)
src_ip-get_src_from_control u laws l layout cs c rest ep passed wf (family6 n k size) =
    let held : Captured u c (get_src_from_control u (control u cs ++ (encode u c ++ rest)) ep) =
      (get_src_from_control-Captured u laws cs ep passed c rest wf (family6 n k size)).0 in
    let both = src_ip-six u laws l layout c _ held size in
    let is = is_pktinfo6-on u c.hdr k in
    rw (both.0, both.1) (says6 (is_pktinfo4-off u c.hdr n) is.0 is.1)
