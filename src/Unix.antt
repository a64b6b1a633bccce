-- ===== src/Unix.antt =====
-- What the code uses of golang.org/x/sys/unix, which is not part of the repository: sizes and
-- numbers of control messages, the parser of one control message, and the memory layout of a
-- header and of a 16-bit number (which the code writes through unsafe pointers).
use batchudp.Prelude.{ℕ, ◌+◌, ◌^◌, ◌<◌, ◌≤◌, ◌≡◌, List, ◌++◌, Option, some, length}

-- `unix.Cmsghdr`
pub record Cmsghdr : Type 0 where
  pub hdr_len : ℕ
  pub level : ℕ
  pub type : ℕ

pub record Unix : Type 0 where
  pub sizeof_cmsghdr : ℕ
  pub cmsg_len : ℕ → ℕ
  pub cmsg_space : ℕ → ℕ
  pub sizeof_inet4_pktinfo : ℕ
  pub sizeof_inet6_pktinfo : ℕ
  pub sol_udp : ℕ
  pub udp_gro : ℕ
  pub udp_segment : ℕ
  pub ipproto_ip : ℕ
  pub ip_pktinfo : ℕ
  pub ipproto_ipv6 : ℕ
  pub ipv6_pktinfo : ℕ
  -- the bytes of a header in memory
  pub encode_hdr : Cmsghdr → List ℕ
  -- the bytes of a `uint16` in memory, and back
  pub encode_u16 : ℕ → List ℕ
  pub decode_u16 : List ℕ → ℕ
  -- `ParseOneSocketControlMessage`; `none` is its error
  pub parse_one : List ℕ → Option (Cmsghdr × List ℕ × List ℕ)

-- The documented behaviour that the code relies on.
pub record UnixLaws (u : Unix) : Type 0 where
  pub length-encode_hdr : (h : Cmsghdr) → length (u.encode_hdr h) ≡ u.sizeof_cmsghdr
  pub length-encode_u16 : (v : ℕ) → length (u.encode_u16 v) ≡ 2
  pub decode-encode_u16 : (v : ℕ) → v < 2 ^ 16 → u.decode_u16 (u.encode_u16 v) ≡ v
  -- CMSG_LEN is the header and the data; CMSG_SPACE adds the padding
  pub cmsg_len_lem : (n : ℕ) → u.cmsg_len n ≡ u.sizeof_cmsghdr + n
  pub cmsg_len-le-space : (n : ℕ) → u.cmsg_len n ≤ u.cmsg_space n
  -- one message is parsed off the front, with its padding
  pub parse_one_lem :
      (h : Cmsghdr) (content pad rest : List ℕ)
      → h.hdr_len ≡ u.cmsg_len (length content)
      → u.sizeof_cmsghdr + (length content + length pad) ≡ u.cmsg_space (length content)
      → u.parse_one (u.encode_hdr h ++ (content ++ (pad ++ rest))) ≡ some (h, content, rest)
  -- parsing takes at least one byte
  pub parse_one_shrinks :
      (b : List ℕ) (h : Cmsghdr) (content rest : List ℕ)
      → u.parse_one b ≡ some (h, content, rest)
      → length rest < length b
