-- ===== src/Std/Receive/Shut.antt =====
-- The receive functions of a bind that has been closed.
use batchudp.Prelude.{ℕ, ◌≡◌, refl, true, List, Bool-cases, inl, inr}
use batchudp.Unix.{Unix}
use batchudp.Slice.{Slice, Msg}
use batchudp.Std.{Net, Bind, ReceiveFunc, Family, udp4, udp6, err_closed}
use batchudp.Std.Close.{close_bind, closed}
use batchudp.Std.Receive.{Reader, fails, call, is_closed}
use batchudp.Conn.{network_down}

closed-is_closed : (s : Bind) (f : Family) → is_closed (closed s) f ≡ true
unfolding closed
closed-is_closed s udp4 = refl
closed-is_closed s udp6 = refl

-- After `Close`, every receive function that any `Open` has returned gives `net.ErrClosed`, and does
-- not read.
pub call-close_bind :
    {W : Type 0} (u : Unix) (net : Net W) (k : Reader W) (fn : ReceiveFunc) (s : Bind)
    (bufs : List Slice) (sizes eps : ℕ) (msgs : List Msg) (w later : W)
    → call u k fn (close_bind net s w).1 bufs sizes eps msgs later ≡ (later, fails err_closed)
unfolding call close_bind
call-close_bind u net k fn s bufs sizes eps msgs w later =
    elim (Bool-cases (network_down (k.is_up later))) [
      | inl down ↦ rw (down, call) refl
      | inr up ↦ rw (up, call) (rw (closed-is_closed s fn.family) refl)
    ]
