-- ===== src/Conn.antt =====
-- What the binds share: conn.go, and the test of errors_linux.go.
pub mod Name
use batchudp.Prelude.{ℕ, Bool, true, false, not, ◌||◌, Option, some, none, ltb, if◌then◌else◌}
use batchudp.Std.{Err, err_read_buffer_too_short, eio, Outcome, ok, err}

-- `validateReceiveBuffers`, of the three lengths
unfoldable pub validate_receive_buffers : ℕ → ℕ → ℕ → ℕ → Option Err
validate_receive_buffers packets sizes eps batch_size =
    if ltb packets batch_size || (ltb sizes batch_size || ltb eps batch_size)
    then some err_read_buffer_too_short
    else none

-- `networkDown`: `none` is a network that cannot be asked, else what `IsUp` answers.
unfoldable pub network_down : Option (Outcome Bool) → Bool
network_down none = false
network_down (some (ok up)) = not up
network_down (some (err e)) = false

unfoldable pub err_should_disable_udp_gso : Err → Bool
err_should_disable_udp_gso eio = true
err_should_disable_udp_gso _ = false
