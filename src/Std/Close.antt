-- ===== src/Std/Close.antt =====
-- `Close` of bind_std.go.
pub mod Reset
use batchudp.Prelude.{Bool, true, false, Option, none, some}
use batchudp.Std.{Err, Conn, Net, Bind}

-- The fields after a close: the wrapper of a family goes with its connection.
unfoldable pub closed : Bind → Bind
closed s = record s {
  ipv4 = none;
  ipv6 = none;
  ipv4_pc = elim s.ipv4 [ none ↦ s.ipv4_pc | some c ↦ none ];
  ipv6_pc = elim s.ipv6 [ none ↦ s.ipv6_pc | some c ↦ none ];
  blackhole4 = false;
  blackhole6 = false;
  ipv4_tx_offload = false;
  ipv4_rx_offload = false;
  ipv6_tx_offload = false;
  ipv6_rx_offload = false;
}

module _ {W : Type 0} (net : Net W) where
  -- `s.ipv4.Close()`, where the family is open
  unfoldable pub close_conn : Option Conn → W → W × Option Err
  close_conn none w = (w, none)
  close_conn (some c) w = net.close c w

  unfoldable pub close_bind : Bind → W → W × Bind × Option Err
  close_bind s w =
      let (w1, err1) = close_conn s.ipv4 w in
      let (w2, err2) = close_conn s.ipv6 w1 in
      (w2, closed s, elim err1 [ some e ↦ some e | none ↦ err2 ])
