-- ===== src/Tests/Sockets.antt =====
-- Runs of the Linux code, on a system that keeps every option of every socket.
use batchudp.Prelude.{
  inl, ◌↔◌, ◌⊎◌, ◌<◌, ◌≤◌, get_elem?, ℕ, ◌==◌, ◌&&◌, ◌≡◌, ◌≢◌, ◌%◌, ◌^◌, refl, sym, ap, ◌∙◌, true,
  false, none, some, List, [], ◌∷◌, if◌then◌else◌, arith, ne→==, eq→==, Bool,
}
use batchudp.Std.{Conn, Net, ok, udp6}
use batchudp.Std.Open.{configure_socket, run_control_fns}
use batchudp.Linux.{
  SockOption, so_rcvbuf, so_sndbuf, so_rcvbufforce, so_sndbufforce, ip_pktinfo, ipv6_recvpktinfo,
  ipv6_v6only, udp_gro, udp_segment, so_mark, Sockopts, kernel_version, is_old,
  socket_open_control_fns, supports_udp_offload, set_mark, size_buffers, receive_pktinfo,
  enable_gro, version_go,
}
use batchudp.Linux.Version.{number_from, kernel_version-release}
use batchudp.Linux.Setup.{SockLaws, configure_socket-Configures}
use batchudp.Linux.Mark.{MarkLaws, Marks, set_mark-Marks}
use batchudp.Tests.Opening.{bind}

-- "6.12-rc1"
abbrev release : List ℕ
release = 54 ∷ 46 ∷ 49 ∷ 50 ∷ 45 ∷ 114 ∷ 99 ∷ 49 ∷ []

-- "5.12-rc1"
abbrev edge : List ℕ
edge = 53 ∷ 46 ∷ 49 ∷ 50 ∷ 45 ∷ 114 ∷ 99 ∷ 49 ∷ []

kernel_version-release_example :
    kernel_version (some release)
    ≡ (number_from 0 (54 ∷ []) % 2 ^ 64, number_from 0 (49 ∷ 50 ∷ []) % 2 ^ 64)
kernel_version-release_example =
    kernel_version-release (54 ∷ []) 46 (49 ∷ 50 ∷ []) 45 (114 ∷ 99 ∷ 49 ∷ [])
      ((omega arith, omega arith), tt) (inl (omega arith))
      ((omega arith, omega arith), ((omega arith, omega arith), tt)) (inl (omega arith))

abbrev code : SockOption → ℕ
code so_rcvbuf = 0
code so_sndbuf = 1
code so_rcvbufforce = 2
code so_sndbufforce = 3
code ip_pktinfo = 4
code ipv6_recvpktinfo = 5
code ipv6_v6only = 6
code udp_gro = 7
code udp_segment = 8
code so_mark = 9

abbrev by_code : List SockOption
by_code =
    so_rcvbuf ∷ so_sndbuf ∷ so_rcvbufforce ∷ so_sndbufforce ∷ ip_pktinfo ∷ ipv6_recvpktinfo
    ∷ ipv6_v6only ∷ udp_gro ∷ udp_segment ∷ so_mark ∷ []

abbrev option_at : ℕ → SockOption
option_at n = elim (get_elem? by_code n) [ none ↦ so_mark | some o ↦ o ]

option_at-code : (o : SockOption) → option_at (code o) ≡ o
option_at-code so_rcvbuf = refl
option_at-code so_sndbuf = refl
option_at-code so_rcvbufforce = refl
option_at-code so_sndbufforce = refl
option_at-code ip_pktinfo = refl
option_at-code ipv6_recvpktinfo = refl
option_at-code ipv6_v6only = refl
option_at-code udp_gro = refl
option_at-code udp_segment = refl
option_at-code so_mark = refl

code_ne : (o p : SockOption) → o ≢ p → (code o == code p) ≡ false
code_ne o p ne =
    ne→== (code o) (code p) (λ h. ne (sym (option_at-code o) ∙ ap option_at h ∙ option_at-code p))

abbrev Table : Type 0
Table = Conn → SockOption → ℕ

abbrev put : Conn → SockOption → ℕ → Table → Table
put c o v t = λ d p. if c == d && code o == code p then v else t d p

abbrev sys : Sockopts Table
sys = record {
  uname = λ t. some edge;
  control = λ c t. none;
  sockopt_control = λ c t. none;
  set_int = λ c o v t. (put c o v t, none);
  get_int = λ c o t. ok (t c o);
  is_unsupported = λ e. false;
}

put_ok : (c : Conn) (o : SockOption) (v : ℕ) (t : Table) → put c o v t c o ≡ v
put_ok c o v t = rw (eq→== c c refl, eq→== (code o) (code o) refl) refl

put_other :
    (c d : Conn) (o p : SockOption) (v : ℕ) (t : Table)
    → (c == d && code o == code p) ≡ false
    → put c o v t d p ≡ t d p
put_other c d o p v t h = rw h refl

and_false : (b : Bool) → (b && false) ≡ false
and_false true = refl
and_false false = refl

sys-SockLaws : SockLaws sys
sys-SockLaws = record {
  opt = λ t. t;
  set_ok = λ c o v t h. put_ok c o v t;
  set_other = λ c o p v t h ne.
      put_other c c o p v t (ap (λ b. c == c && b) (code_ne o p ne) ∙ and_false (c == c));
  uname_same = λ c o v t. refl;
}

sys-MarkLaws : MarkLaws sys
sys-MarkLaws = record {
  mark_of = λ t c. t c so_mark;
  set_ok = λ c v t h. put_ok c so_mark v t;
  set_other = λ c d v t ne. put_other c d so_mark so_mark v t (ap (λ b. b && true) (ne→== c d ne));
}

abbrev zeros : Table
zeros = λ c o. 0

set_mark-Marks_example :
    Marks sys sys-MarkLaws
      (some 3)
      (some 4)
      7
      zeros
      (set_mark sys true (record bind { ipv4 = some 3; ipv6 = some 4 }) 7 zeros)
set_mark-Marks_example =
    set_mark-Marks sys sys-MarkLaws (record bind { ipv4 = some 3; ipv6 = some 4 }) 7 zeros
      (λ h. absurd (omega (arith, h)))

abbrev net : Net Table
net = record {
  listen_udp = λ f port t. (t, ok 3);
  syscall_conn = λ c t. ok true;
  local_port = λ c t. ok 4000;
  close = λ c t. (t, none);
  supports_offload = λ c t. supports_udp_offload sys c t;
  is_native = λ c. true;
}

configure_socket-Configures_example :
    ((configure_socket net (socket_open_control_fns sys false) udp6 3 zeros).0 3 ipv6_recvpktinfo
      ≡ 1)
    × (((supports_udp_offload sys 3
            (configure_socket net (socket_open_control_fns sys false) udp6 3 zeros).0).1
          ≡ true)
        ↔ ((5 < number_from 0 (53 ∷ []))
            ⊎ ((number_from 0 (53 ∷ []) ≡ 5) × (12 ≤ number_from 0 (49 ∷ 50 ∷ [])))))
unfolding sys-SockLaws number_from
configure_socket-Configures_example =
    configure_socket-Configures sys sys-SockLaws net (53 ∷ []) 46 (49 ∷ 50 ∷ []) 45
      (114 ∷ 99 ∷ 49 ∷ []) ((omega arith, omega arith), tt) (inl (omega arith))
      ((omega arith, omega arith), ((omega arith, omega arith), tt)) (inl (omega arith))
      (omega arith) (omega arith) false udp6 3 zeros refl refl (λ t. refl) (λ t. refl) (λ t. refl)
      refl
      (unfold configure_socket run_control_fns socket_open_control_fns size_buffers receive_pktinfo
          enable_gro is_old kernel_version version_go in
        refl)
