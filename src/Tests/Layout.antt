-- ===== src/Tests/Layout.antt =====
-- A small control message layout that satisfies the laws, for the concrete runs: three cells of
-- header, the data, one cell of padding.
use batchudp.Prelude.{
  ℕ, ◌+◌, ◌-◌, ◌*◌, ◌/◌, ◌%◌, ◌<◌, ◌≡◌, refl, ap₂, append-nil, ◌∙◌, ◌&&◌, List, [], ◌∷◌, ◌++◌,
  Option, some, none, length, take, drop, leb, if◌then◌else◌, arith, length-append, length-drop,
  le→leb, drop-append_add, take-append_add,
}
use batchudp.Unix.{Unix, UnixLaws, Cmsghdr}

abbrev pub cells_of : Cmsghdr → List ℕ
cells_of h = h.hdr_len ∷ h.level ∷ h.type ∷ []

unfoldable pub parse_cells : List ℕ → Option (Cmsghdr × List ℕ × List ℕ)
parse_cells (l ∷ v ∷ t ∷ xs) =
    if leb 3 l && leb (l - 2) (length xs)
    then some (record { hdr_len = l; level = v; type = t }, take (l - 3) xs, drop (l - 2) xs)
    else none
parse_cells _ = none

abbrev pub cells : Unix
cells = record {
  sizeof_cmsghdr = 3;
  cmsg_len = λ n. 3 + n;
  cmsg_space = λ n. 4 + n;
  sizeof_inet4_pktinfo = 3;
  sizeof_inet6_pktinfo = 5;
  sol_udp = 17;
  udp_gro = 104;
  udp_segment = 103;
  ipproto_ip = 0;
  ip_pktinfo = 8;
  ipproto_ipv6 = 41;
  ipv6_pktinfo = 50;
  encode_hdr = cells_of;
  encode_u16 = λ v. (v / 256) ∷ (v % 256) ∷ [];
  decode_u16 = λ xs. elim xs [ [] ↦ 0 | a ∷ bs ↦ elim bs [ [] ↦ 0 | b ∷ cs ↦ a * 256 + b ] ];
  parse_one = parse_cells;
}

cells-parse :
    (h : Cmsghdr) (content pad rest : List ℕ)
    → h.hdr_len ≡ 3 + length content
    → 3 + (length content + length pad) ≡ 4 + length content
    → parse_cells (cells_of h ++ (content ++ (pad ++ rest))) ≡ some (h, content, rest)
unfolding parse_cells
cells-parse h content pad rest e1 e2 =
    rw
      (
        le→leb 3 h.hdr_len (omega arith),
        le→leb (h.hdr_len - 2) (length (content ++ (pad ++ rest)))
            (omega (arith, length-append content (pad ++ rest), length-append pad rest)),
      )
      (ap₂ (λ p q. some (h, p, q))
        (take-append_add content (pad ++ rest) 0 (h.hdr_len - 3) (omega arith) ∙ append-nil content)
        (drop-append_add content (pad ++ rest) 1 (h.hdr_len - 2) (omega arith)
          ∙ drop-append_add pad rest 0 1 (omega arith)))

cells-shrinks :
    (b : List ℕ) (h : Cmsghdr) (content rest : List ℕ)
    → parse_cells b ≡ some (h, content, rest)
    → length rest < length b
unfolding parse_cells
cells-shrinks [] h content rest e = ground arith
cells-shrinks (l ∷ []) h content rest e = ground arith
cells-shrinks (l ∷ v ∷ []) h content rest e = ground arith
cells-shrinks (l ∷ v ∷ t ∷ xs) h content rest e = ground (arith, length-drop (l - 2) xs)

pub cells-UnixLaws : UnixLaws cells
cells-UnixLaws = record {
  length-encode_hdr = λ h. refl;
  length-encode_u16 = λ v. refl;
  decode-encode_u16 = λ v small. omega arith;
  cmsg_len_lem = λ n. refl;
  cmsg_len-le-space = λ n. omega arith;
  parse_one_lem = cells-parse;
  parse_one_shrinks = cells-shrinks;
}
