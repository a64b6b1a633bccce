-- ===== src/Linux/Setup.antt =====
-- A socket behind `configureSocket` on Linux: its options, and what is then detected.
use batchudp.Prelude.{
  ◌↔◌, ◌⊎◌, ◌<◌, ◌≤◌, ◌%◌, ◌^◌, List, ◌∷◌, ◌++◌, All, true, some, ℕ, ◌≡◌, ◌≢◌, refl, sym, ap, ap₂,
  ◌∙◌, Bool, false, not, Option, none, ◌==◌, if◌then◌else◌, arith, Option-cases, inl, inr,
}
use batchudp.Std.{Err, ok, err, Family, udp4, udp6, Conn, Net}
use batchudp.Std.Open.{run_control_fns, configure_socket}
use batchudp.Linux.Version.{number_from, IsDigit, IsOther, kernel_version-release}
use batchudp.Linux.{
  SockOption, so_rcvbuf, so_sndbuf, so_rcvbufforce, so_sndbufforce, ip_pktinfo, ipv6_recvpktinfo,
  ipv6_v6only, udp_gro, Sockopts, is_old, kernel_version, size_buffers, receive_pktinfo, enable_gro,
  socket_open_control_fns, supports_udp_offload, only_v6, listen_control_fns, listen_config,
}

-- The options whose value one call may change for another.
abbrev pub is_buffer : SockOption → Bool
is_buffer so_rcvbuf = true
is_buffer so_sndbuf = true
is_buffer so_rcvbufforce = true
is_buffer so_sndbufforce = true
is_buffer _ = false

-- The kernel keeps a value for each option of a socket; setting one keeps the others.
pub record SockLaws {W : Type 0} (sys : Sockopts W) : Type 0 where
  pub opt : W → Conn → SockOption → ℕ
  pub set_ok :
      (c : Conn) (o : SockOption) (v : ℕ) (w : W)
      → (sys.set_int c o v w).1 ≡ none
      → opt (sys.set_int c o v w).0 c o ≡ v
  pub set_other :
      (c : Conn) (o p : SockOption) (v : ℕ) (w : W)
      → is_buffer p ≡ false
      → o ≢ p
      → opt (sys.set_int c o v w).0 c p ≡ opt w c p
  pub uname_same :
      (c : Conn) (o : SockOption) (v : ℕ) (w : W) → sys.uname (sys.set_int c o v w).0 ≡ sys.uname w

-- The option for packet information of a family.
abbrev pub pktinfo_of : Family → SockOption
pktinfo_of udp4 = ip_pktinfo
pktinfo_of udp6 = ipv6_recvpktinfo

module _ {W : Type 0} (sys : Sockopts W) (laws : SockLaws sys) (c : Conn) where
  open laws use {opt, set_ok, set_other, uname_same}

  size_buffers-opt :
      (f : Family) (p : SockOption) (w : W)
      → is_buffer p ≡ false
      → opt (size_buffers sys f c w).0 c p ≡ opt w c p
  unfolding size_buffers
  size_buffers-opt f p w h = elim (Option-cases (sys.control c w)) [
    | inl e ↦
        let w1 = (sys.set_int c so_rcvbuf 7340032 w).0 in
        let w2 = (sys.set_int c so_sndbuf 7340032 w1).0 in
        let w3 = (sys.set_int c so_rcvbufforce 7340032 w2).0 in
        rw (e, size_buffers)
          (set_other c so_sndbufforce p 7340032 w3 h (λ x. ground arith)
            ∙ set_other c so_rcvbufforce p 7340032 w2 h (λ x. ground arith)
            ∙ set_other c so_sndbuf p 7340032 w1 h (λ x. ground arith)
            ∙ set_other c so_rcvbuf p 7340032 w h (λ x. ground arith))
    | inr (x, e) ↦ rw (e, size_buffers) refl
  ]

  size_buffers-uname : (f : Family) (w : W) → sys.uname (size_buffers sys f c w).0 ≡ sys.uname w
  unfolding size_buffers
  size_buffers-uname f w = elim (Option-cases (sys.control c w)) [
    | inl e ↦
        let w1 = (sys.set_int c so_rcvbuf 7340032 w).0 in
        let w2 = (sys.set_int c so_sndbuf 7340032 w1).0 in
        let w3 = (sys.set_int c so_rcvbufforce 7340032 w2).0 in
        rw (e, size_buffers)
          (uname_same c so_sndbufforce 7340032 w3
            ∙ uname_same c so_rcvbufforce 7340032 w2
            ∙ uname_same c so_sndbuf 7340032 w1
            ∙ uname_same c so_rcvbuf 7340032 w)
    | inr (x, e) ↦ rw (e, size_buffers) refl
  ]

  -- packet information changes its own option
  receive_pktinfo-other :
      (android : Bool) (f : Family) (p : SockOption) (w : W)
      → is_buffer p ≡ false
      → pktinfo_of f ≢ p
      → opt (receive_pktinfo sys android f c w).0 c p ≡ opt w c p
  unfolding receive_pktinfo
  receive_pktinfo-other android udp4 p w h ne = ground (arith, set_other c ip_pktinfo p 1 w)
  receive_pktinfo-other android udp6 p w h ne = ground (arith, set_other c ipv6_recvpktinfo p 1 w)

  receive_pktinfo-uname :
      (android : Bool) (f : Family) (w : W)
      → sys.uname (receive_pktinfo sys android f c w).0 ≡ sys.uname w
  unfolding receive_pktinfo
  receive_pktinfo-uname android udp4 w = ground (arith, uname_same c ip_pktinfo 1 w)
  receive_pktinfo-uname android udp6 w = ground (arith, uname_same c ipv6_recvpktinfo 1 w)

  receive_pktinfo-set :
      (android : Bool) (f : Family) (w : W)
      → (receive_pktinfo sys android f c w).1 ≡ none
      → opt (receive_pktinfo sys android f c w).0 c (pktinfo_of f)
        ≡ (if android then opt w c (pktinfo_of f) else 1)
  unfolding receive_pktinfo
  receive_pktinfo-set android udp4 w h = ground (arith, set_ok c ip_pktinfo 1 w)
  receive_pktinfo-set android udp6 w h = ground (arith, set_ok c ipv6_recvpktinfo 1 w)

  enable_gro-other :
      (f : Family) (p : SockOption) (w : W)
      → is_buffer p ≡ false
      → udp_gro ≢ p
      → opt (enable_gro sys f c w).0 c p ≡ opt w c p
  unfolding enable_gro
  enable_gro-other f p w h ne = ground (arith, set_other c udp_gro p 1 w)

  enable_gro-set :
      (f : Family) (w : W)
      → ((x : W) → (sys.set_int c udp_gro 1 x).1 ≡ none)
      → (enable_gro sys f c w).1 ≡ none
      → opt (enable_gro sys f c w).0 c udp_gro
        ≡ (if is_old (kernel_version (sys.uname w)) then opt w c udp_gro else 1)
  unfolding enable_gro
  enable_gro-set f w accepts h = ground (arith, set_ok c udp_gro 1 w (accepts w))

pktinfo_of-is_buffer : (f : Family) → is_buffer (pktinfo_of f) ≡ false
pktinfo_of-is_buffer udp4 = refl
pktinfo_of-is_buffer udp6 = refl

pktinfo_of-ne : (f : Family) → udp_gro ≢ pktinfo_of f
pktinfo_of-ne udp4 h = ground arith
pktinfo_of-ne udp6 h = ground arith

pktinfo_of-ne_gro : (f : Family) → pktinfo_of f ≢ udp_gro
pktinfo_of-ne_gro udp4 h = ground arith
pktinfo_of-ne_gro udp6 h = ground arith

is_one : (b : Bool) → ((if b then 0 else 1) == 1) ≡ not b
is_one true = refl
is_one false = refl

-- The gate lets 5.12 and later pass.
is_old-since :
    (major minor : ℕ)
    → major < 2 ^ 63
    → minor < 2 ^ 63
    → (not (is_old (major % 2 ^ 64, minor % 2 ^ 64)) ≡ true)
      ↔ ((5 < major) ⊎ ((major ≡ 5) × (12 ≤ minor)))
unfolding is_old
is_old-since major minor h k =
    let m : major % 2 ^ 64 ≡ major = omega arith in
    let n : minor % 2 ^ 64 ≡ minor = omega arith in rw (m, n) (λ p. ground arith, λ p. ground arith)

module _ {W : Type 0} (sys : Sockopts W) (laws : SockLaws sys) (net : Net W) where
  open laws use {opt, set_ok}

  -- The three functions in a row.
  record Steps (android : Bool) (f : Family) (c : Conn) (w : W) (r : W × Option Err) : Type 0 where
    sized : W
    informed : W
    is_sized : sized ≡ (size_buffers sys f c w).0
    is_informed : informed ≡ (receive_pktinfo sys android f c sized).0
    quiet : (receive_pktinfo sys android f c sized).1 ≡ none
    gro_quiet : (enable_gro sys f c informed).1 ≡ none
    result : r.0 ≡ (enable_gro sys f c informed).0

  run-Steps :
      (android : Bool) (f : Family) (c : Conn) (w : W)
      → (run_control_fns net (socket_open_control_fns sys android) f c w).1 ≡ none
      → Steps android f c w (run_control_fns net (socket_open_control_fns sys android) f c w)
  unfolding run_control_fns socket_open_control_fns
  run-Steps android f c w h =
      let w1 = (size_buffers sys f c w).0 in
      let w2 = (receive_pktinfo sys android f c w1).0 in
      let quiet : (receive_pktinfo sys android f c w1).1 ≡ none = ground arith in
      let gro_quiet : (enable_gro sys f c w2).1 ≡ none = ground arith in
      record {
        sized = w1;
        informed = w2;
        is_sized = refl;
        is_informed = refl;
        quiet = quiet;
        gro_quiet = gro_quiet;
        result = ground arith;
      }

  module _ (android : Bool) (f : Family) (c : Conn) (w : W) (r : W × Option Err)
      (s : Steps android f c w r) where
    Steps-pktinfo : opt r.0 c (pktinfo_of f) ≡ (if android then opt w c (pktinfo_of f) else 1)
    Steps-pktinfo =
        ap (λ x. opt x c (pktinfo_of f)) s.result
        ∙ enable_gro-other sys laws c f (pktinfo_of f) s.informed (pktinfo_of-is_buffer f)
            (pktinfo_of-ne f)
        ∙ ap (λ x. opt x c (pktinfo_of f)) s.is_informed
        ∙ receive_pktinfo-set sys laws c android f s.sized s.quiet
        ∙ ap (λ n. if android then n else 1)
            (ap (λ x. opt x c (pktinfo_of f)) s.is_sized
              ∙ size_buffers-opt sys laws c f (pktinfo_of f) w (pktinfo_of-is_buffer f))

    uname-informed : sys.uname s.informed ≡ sys.uname w
    uname-informed =
        ap sys.uname s.is_informed
        ∙ receive_pktinfo-uname sys laws c android f s.sized
        ∙ ap sys.uname s.is_sized
        ∙ size_buffers-uname sys laws c f w

    gro-informed : opt s.informed c udp_gro ≡ opt w c udp_gro
    gro-informed =
        ap (λ x. opt x c udp_gro) s.is_informed
        ∙ receive_pktinfo-other sys laws c android f udp_gro s.sized refl (pktinfo_of-ne_gro f)
        ∙ ap (λ x. opt x c udp_gro) s.is_sized
        ∙ size_buffers-opt sys laws c f udp_gro w refl

    Steps-gro :
        ((x : W) → (sys.set_int c udp_gro 1 x).1 ≡ none)
        → opt r.0 c udp_gro ≡ (if is_old (kernel_version (sys.uname w)) then opt w c udp_gro else 1)
    Steps-gro accepts =
        ap (λ x. opt x c udp_gro) s.result
        ∙ enable_gro-set sys laws c f s.informed accepts s.gro_quiet
        ∙ ap₂ (λ v n. if is_old (kernel_version v) then n else 1) uname-informed gro-informed

  supports_udp_offload-rx :
      (c : Conn) (x : W)
      → sys.sockopt_control c x ≡ none
      → sys.get_int c udp_gro x ≡ ok (opt x c udp_gro)
      → (supports_udp_offload sys c x).1 ≡ (opt x c udp_gro == 1)
  unfolding supports_udp_offload
  supports_udp_offload-rx c x called read =
      rw (called, supports_udp_offload) (ap (λ o. elim o [ ok v ↦ v == 1 | err e ↦ false ]) read)

  configure_socket-gate :
      (android : Bool) (f : Family) (c : Conn) (w : W)
      → net.syscall_conn c w ≡ ok true
      → ((x : W) → (sys.set_int c udp_gro 1 x).1 ≡ none)
      → ((x : W) → sys.get_int c udp_gro x ≡ ok (opt x c udp_gro))
      → ((x : W) → sys.sockopt_control c x ≡ none)
      → opt w c udp_gro ≡ 0
      → (configure_socket net (socket_open_control_fns sys android) f c w).1 ≡ none
      → (opt (configure_socket net (socket_open_control_fns sys android) f c w).0 c (pktinfo_of f)
          ≡ (if android then opt w c (pktinfo_of f) else 1))
        × ((supports_udp_offload sys c
              (configure_socket net (socket_open_control_fns sys android) f c w).0).1
            ≡ not (is_old (kernel_version (sys.uname w))))
  unfolding configure_socket supports_udp_offload
  configure_socket-gate android f c w raw accepts reads controls fresh h =
      let fns = socket_open_control_fns sys android in
      let r = configure_socket net fns f c w in
      let same : r ≡ run_control_fns net fns f c w = rw (raw, configure_socket) refl in
      let s : Steps android f c w (run_control_fns net fns f c w) =
        run-Steps android f c w (ap (λ (x : W × Option Err). x.1) (sym same) ∙ h) in
      let gro : opt r.0 c udp_gro ≡ (if is_old (kernel_version (sys.uname w)) then 0 else 1) =
        ap (λ (x : W × Option Err). opt x.0 c udp_gro) same
        ∙ Steps-gro android f c w _ s accepts
        ∙ ap (λ n. if is_old (kernel_version (sys.uname w)) then n else 1) fresh in
      (
        ap (λ (x : W × Option Err). opt x.0 c (pktinfo_of f)) same
            ∙ Steps-pktinfo android f c w _ s,
        supports_udp_offload-rx c r.0 (controls r.0) (reads r.0)
            ∙ ap (λ n. n == 1) gro
            ∙ is_one (is_old (kernel_version (sys.uname w))),
      )

  module _ (ds : List ℕ) (sep : ℕ) (es : List ℕ) (end : ℕ) (rest : List ℕ) (major : All IsDigit ds)
      (no_digit : IsOther sep) (minor : All IsDigit es) (stop : IsOther end)
      (small : number_from 0 ds < 2 ^ 63) (small' : number_from 0 es < 2 ^ 63) where
    gate :
        (not (is_old (kernel_version (some (ds ++ (sep ∷ (es ++ (end ∷ rest))))))) ≡ true)
        ↔ ((5 < number_from 0 ds) ⊎ ((number_from 0 ds ≡ 5) × (12 ≤ number_from 0 es)))
    gate =
        rw (kernel_version-release ds sep es end rest major no_digit minor stop)
          (is_old-since (number_from 0 ds) (number_from 0 es) small small')

    -- Where `configureSocket` succeeds on a socket with raw access, on a system that takes UDP_GRO
    -- and lets it be read, and whose release begins with two decimal numbers below 2 ^ 63: packet
    -- information is on (but on Android, where it is as before), and receive offload is detected on
    -- the socket exactly where the release is 5.12 or later.
    pub configure_socket-Configures :
        (android : Bool) (f : Family) (c : Conn) (w : W)
        → sys.uname w ≡ some (ds ++ (sep ∷ (es ++ (end ∷ rest))))
        → net.syscall_conn c w ≡ ok true
        → ((x : W) → (sys.set_int c udp_gro 1 x).1 ≡ none)
        → ((x : W) → sys.get_int c udp_gro x ≡ ok (opt x c udp_gro))
        → ((x : W) → sys.sockopt_control c x ≡ none)
        → opt w c udp_gro ≡ 0
        → (configure_socket net (socket_open_control_fns sys android) f c w).1 ≡ none
        → (opt (configure_socket net (socket_open_control_fns sys android) f c w).0 c (pktinfo_of f)
            ≡ (if android then opt w c (pktinfo_of f) else 1))
          × (((supports_udp_offload sys c
                  (configure_socket net (socket_open_control_fns sys android) f c w).0).1
                ≡ true)
              ↔ ((5 < number_from 0 ds) ⊎ ((number_from 0 ds ≡ 5) × (12 ≤ number_from 0 es))))
    configure_socket-Configures android f c w named raw accepts reads controls fresh h =
        let g = configure_socket-gate android f c w raw accepts reads controls fresh h in
        (g.0, rw (g.1, named) gate)

  -- A socket of IPv6 with raw access takes IPv6 only, where `listenConfig` succeeds.
  listen_config-only_v6 :
      (c : Conn) (w : W)
      → (listen_config sys net true udp6 c w).1 ≡ none
      → opt (listen_config sys net true udp6 c w).0 c ipv6_v6only ≡ 1
  unfolding listen_config run_control_fns listen_control_fns only_v6
  listen_config-only_v6 c w h = elim (Option-cases (sys.control c w)) [
    | inr (e, barred) ↦ absurd (ground arith)
    | inl called ↦ elim (Option-cases (sys.set_int c ipv6_v6only 1 w).1) [
      | inl done ↦ ground (arith, set_ok c ipv6_v6only 1 w done)
      | inr (e, bad) ↦ absurd (ground arith)
    ]
  ]
