-- ===== src/Std.antt =====
-- StdNetBind, the gonnect-backed bind of bind_std.go: its state, and what it uses of the network.
pub mod Pack
pub mod Pool
pub mod Open
pub mod Close
pub mod Send
pub mod Receive
use batchudp.Prelude.{ℕ, Bool, true, false, ◌&&◌, Option, some, none, List, ltb, if◌then◌else◌}
use batchudp.Slice.{Msg, UdpAddr}

-- The errors that the code tells apart (by `errors.Is`); all others are numbered.
pub data Err : Type 0 where
  eafnosupport : Err
  eaddrinuse : Err
  err_no_network : Err
  err_bind_already_open : Err
  err_read_buffer_too_short : Err
  err_closed : Err
  err_split_overflow : Err
  err_bad_control : Err
  err_wrong_endpoint_type : Err
  -- `io.ErrShortBuffer`, `io.ErrNoProgress`
  err_short_buffer : Err
  err_no_progress : Err
  -- a `windows.Errno`
  errno : ℕ → Err
  -- an `os.SyscallError` with EIO
  eio : Err
  other_err : ℕ → Err

pub data Outcome {ℓ} (A : Type ℓ) : Type ℓ where
  ok : A → Outcome A
  err : Err → Outcome A

pub data Family : Type 0 where
  udp4 : Family
  udp6 : Family

-- A connection is known by its handle.
abbrev pub Conn : Type 0
Conn = ℕ

-- gonnect and golang.org/x/net, which are not part of the repository, over the states `W` of the
-- operating system. Every operation may change the state.
pub record Net (W : Type 0) : Type 0 where
  -- `ListenUDPConfig` on the family's wildcard address, at a port
  pub listen_udp : Family → ℕ → W → W × Outcome Conn
  -- `gonnect.SyscallConn`: an error, no raw access, or raw access
  pub syscall_conn : Conn → W → Outcome Bool
  -- `ResolveUDPAddr` of the local address, of which only the port is used
  pub local_port : Conn → W → Outcome ℕ
  pub close : Conn → W → W × Option Err
  -- `supportsUDPOffload`: transmit, receive
  pub supports_offload : Conn → W → Bool × Bool
  -- whether the connection unwraps to a `*net.UDPConn`
  pub is_native : Conn → Bool

-- `StdNetBindOptions`; `notify` says whether `OnFamilyOpenError` is set.
pub record Options : Type 0 where
  pub ipv6_first : Bool
  pub allow_single_family : Bool
  pub notify : Bool

-- `StdNetBind`. A batch reader and writer is one made on the connection it stands beside.
pub record Bind : Type 0 where
  pub has_network : Bool
  pub options : Options
  pub ipv4 : Option Conn
  pub ipv6 : Option Conn
  pub ipv4_pc : Option Conn
  pub ipv6_pc : Option Conn
  pub ipv4_tx_offload : Bool
  pub ipv4_rx_offload : Bool
  pub ipv6_tx_offload : Bool
  pub ipv6_rx_offload : Bool
  pub blackhole4 : Bool
  pub blackhole6 : Bool
  pub batch_size : ℕ

-- A `ReceiveFunc` that `Open` returns: what its closure holds.
pub record ReceiveFunc : Type 0 where
  pub family : Family
  pub reader : Option Conn
  pub conn : Conn
  pub rx_offload : Bool

-- `IdealBatchSize`
abbrev pub ideal_batch_size : ℕ
ideal_batch_size = 128

-- `stdNetBindBatchSize`; a size that is not positive is 0. `linux` is a build for Linux or Android.
unfoldable pub std_net_bind_batch_size : Bool → Option Bool → ℕ → ℕ
std_net_bind_batch_size linux native size =
    if ltb 0 size
    then size
    else elim native [ none ↦ 1 | some n ↦ if n && linux then ideal_batch_size else 1 ]

-- `NewStdNetBindWithOptions`: on no network, or on one that is native or not.
unfoldable pub new_std_net_bind_with_options : Bool → Option Bool → Options → ℕ → Bind
new_std_net_bind_with_options linux native o size = record {
  has_network = elim native [ none ↦ false | some n ↦ true ];
  options = o;
  ipv4 = none;
  ipv6 = none;
  ipv4_pc = none;
  ipv6_pc = none;
  ipv4_tx_offload = false;
  ipv4_rx_offload = false;
  ipv6_tx_offload = false;
  ipv6_rx_offload = false;
  blackhole4 = false;
  blackhole6 = false;
  batch_size = std_net_bind_batch_size linux native size;
}
