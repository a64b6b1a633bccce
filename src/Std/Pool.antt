-- ===== src/Std/Pool.antt =====
-- The messages that the pool of `NewStdNetBindWithOptions` makes (bind_std.go), with the sizes of
-- gso_linux.go and sticky_linux.go.
use batchudp.Prelude.{
  ℕ, zero, suc, ◌+◌, ◌≤◌, refl, none, List, [], ◌∷◌, length, replicate, All, arith,
  length-replicate,
}
use batchudp.Slice.{Msg}
use batchudp.Unix.{Unix}
use batchudp.Std.Pack.{IsBlank}
use batchudp.Batching.Upgrade.{gso_control_size}

module _ (u : Unix) where
  -- `stickyControlSize`
  abbrev pub sticky_control_size : ℕ
  sticky_control_size = u.cmsg_space u.sizeof_inet6_pktinfo

  abbrev pub pool_msg : Msg
  pool_msg = record {
    buffers = record { bytes = []; spare = [] } ∷ [];
    oob = record { bytes = []; spare = replicate (sticky_control_size + gso_control_size u) 0 };
    addr = none;
    n = 0;
    nn = 0;
  }

  unfoldable pub pool_msgs : ℕ → List Msg
  pool_msgs batch_size = replicate batch_size pool_msg

  -- There is room for a source of a sticky control message and for a segment size behind it, which
  -- is what the attempts of `Send` need.
  pool_msgs-IsBlank :
      (src : List ℕ) (n : ℕ) → length src ≤ sticky_control_size → All (IsBlank u src) (pool_msgs n)
  unfolding pool_msgs
  pool_msgs-IsBlank src zero small = tt
  pool_msgs-IsBlank src (suc n) small = (
    (
      record { bytes = []; spare = [] },
      refl,
      omega (arith, small, length-replicate (sticky_control_size + gso_control_size u) zero),
    ),
    pool_msgs-IsBlank src n small,
  )
