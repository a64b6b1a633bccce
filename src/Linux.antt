-- ===== src/Linux.antt =====
-- The control functions of controlfns_linux.go, `listenConfig` of controlfns.go,
-- `supportsUDPOffload` of features_linux.go, and `SetMark` of mark_unix.go.
--
-- golang.org/x/sys/unix and gonnect's sockopt are the parameter `Sockopts`. A pair of a level and
-- an option name is one constructor of `SockOption`. The network is "udp4" or "udp6", the two that
-- `listenNet` passes, so the default case of the second function has no counterpart.
pub mod Version
pub mod Setup
pub mod Mark
pub mod Elsewhere
use batchudp.Prelude.{
  ℕ, ◌+◌, ◌-◌, ◌*◌, ◌%◌, ◌^◌, Bool, true, false, not, ◌&&◌, ◌||◌, Option, some, none, List, [], ◌∷◌,
  leb, ltb, ◌==◌, if◌then◌else◌,
}
use batchudp.Std.{Err, Outcome, ok, err, Family, udp4, udp6, Conn, Bind, Net}
use batchudp.Std.Open.{run_control_fns}

-- `socketBufferSize`
abbrev pub socket_buffer_size : ℕ
socket_buffer_size = 7 * 2 ^ 20

pub data SockOption : Type 0 where
  so_rcvbuf : SockOption
  so_sndbuf : SockOption
  so_rcvbufforce : SockOption
  so_sndbufforce : SockOption
  ip_pktinfo : SockOption
  ipv6_recvpktinfo : SockOption
  ipv6_v6only : SockOption
  udp_gro : SockOption
  udp_segment : SockOption
  -- `fwmarkIoctl`
  so_mark : SockOption

pub record Sockopts (W : Type 0) : Type 0 where
  -- `Uname`: the bytes of `Release`, or an error
  pub uname : W → Option (List ℕ)
  -- `RawConn.Control`, `sockopt.Control`: an error, or the function has been called once
  pub control : Conn → W → Option Err
  pub sockopt_control : Conn → W → Option Err
  pub set_int : Conn → SockOption → ℕ → W → W × Option Err
  pub get_int : Conn → SockOption → W → Outcome ℕ
  -- `sockopt.IgnoreUnsupported` takes an error away
  pub is_unsupported : Err → Bool

abbrev pub is_digit : ℕ → Bool
is_digit c = leb 48 c && leb c 57

-- The loop over `Release`, from `value`, `vi` and the two values on; an `int` has 64 bits.
unfoldable pub version_go : List ℕ → ℕ → ℕ → ℕ → ℕ → ℕ × ℕ
version_go [] value vi major minor = (major, minor)
version_go (c ∷ cs) value vi major minor = elim (is_digit c) [
  | true ↦ version_go cs ((value * 10 + (c - 48)) % 2 ^ 64) vi major minor
  | false ↦ elim (vi == 0) [ true ↦ version_go cs 0 1 value minor | false ↦ (major, value) ]
]

unfoldable pub kernel_version : Option (List ℕ) → ℕ × ℕ
kernel_version none = (0, 0)
kernel_version (some release) = version_go release 0 0 0 0

-- `v < k` on `int`, for a small positive `k`
abbrev pub int_lt : ℕ → ℕ → Bool
int_lt v k = leb (2 ^ 63) v || ltb v k

-- The gate before `UDP_GRO`.
unfoldable pub is_old : ℕ × ℕ → Bool
is_old (major, minor) = int_lt major 5 || (major == 5 && int_lt minor 12)

module _ {W : Type 0} (sys : Sockopts W) where
  -- `_ = unix.SetsockoptInt(...)`
  abbrev pub set_quietly : Conn → SockOption → ℕ → W → W
  set_quietly c o v w = (sys.set_int c o v w).0

  -- `c.Control` of a function that keeps its error
  abbrev pub set_controlled : Conn → SockOption → ℕ → W → W × Option Err
  set_controlled c o v w = elim (sys.control c w) [
    | some e ↦ (w, some e)
    | none ↦ sys.set_int c o v w
  ]

  unfoldable pub size_buffers : Family → Conn → W → W × Option Err
  size_buffers f c w = elim (sys.control c w) [
    | some e ↦ (w, some e)
    | none ↦
        let w1 = set_quietly c so_rcvbuf socket_buffer_size w in
        let w2 = set_quietly c so_sndbuf socket_buffer_size w1 in
        let w3 = set_quietly c so_rcvbufforce socket_buffer_size w2 in
        (set_quietly c so_sndbufforce socket_buffer_size w3, none)
  ]

  unfoldable pub receive_pktinfo : Bool → Family → Conn → W → W × Option Err
  receive_pktinfo android udp4 c w = if android then (w, none) else set_controlled c ip_pktinfo 1 w
  receive_pktinfo android udp6 c w = elim (sys.control c w) [
    | some e ↦ (w, some e)
    | none ↦ if android then (w, none) else sys.set_int c ipv6_recvpktinfo 1 w
  ]

  unfoldable pub enable_gro : Family → Conn → W → W × Option Err
  enable_gro f c w =
      if is_old (kernel_version (sys.uname w)) then (w, none) else elim (sys.control c w) [
        | some e ↦ (w, some e)
        | none ↦ (set_quietly c udp_gro 1 w, none)
      ]

  -- What `init` appends to `socketOpenControlFns`.
  unfoldable pub socket_open_control_fns : Bool → List (Family → Conn → W → W × Option Err)
  socket_open_control_fns android = size_buffers ∷ receive_pktinfo android ∷ enable_gro ∷ []

  unfoldable pub only_v6 : Family → Conn → W → W × Option Err
  only_v6 udp4 c w = (w, none)
  only_v6 udp6 c w = set_controlled c ipv6_v6only 1 w

  unfoldable pub listen_control_fns : List (Family → Conn → W → W × Option Err)
  listen_control_fns = only_v6 ∷ []

  -- The `Control` of `listenConfig`, with raw access or without.
  unfoldable pub listen_config : Net W → Bool → Family → Conn → W → W × Option Err
  listen_config net raw f c w =
      if not raw then (w, none) else run_control_fns net listen_control_fns f c w

  unfoldable pub supports_udp_offload : Conn → W → Bool × Bool
  supports_udp_offload c w = elim (sys.sockopt_control c w) [
    | some e ↦ (false, false)
    | none ↦ (
      elim (sys.get_int c udp_segment w) [ ok v ↦ true | err e ↦ false ],
      elim (sys.get_int c udp_gro w) [ ok v ↦ v == 1 | err e ↦ false ],
    )
  ]

  -- `SetMark` on one socket.
  unfoldable pub mark_socket : Conn → ℕ → W → W × Option Err
  mark_socket c mark w =
      let (w', e) : W × Option Err = elim (sys.sockopt_control c w) [
        | some x ↦ (w, some x)
        | none ↦ sys.set_int c so_mark mark w
      ] in
      elim e [
        | none ↦ (w', none)
        | some x ↦ if sys.is_unsupported x then (w', none) else (w', some x)
      ]

  abbrev pub mark_open : Option Conn → ℕ → W → W × Option Err
  mark_open none mark w = (w, none)
  mark_open (some c) mark w = mark_socket c mark w

  -- `has_mark`: the system has such an option.
  unfoldable pub set_mark : Bool → Bind → ℕ → W → W × Option Err
  set_mark has_mark s mark w =
      if not has_mark
      then (w, none)
      else let (w1, e) = mark_open s.ipv4 mark w in
        elim e [ some x ↦ (w1, some x) | none ↦ mark_open s.ipv6 mark w1 ]
