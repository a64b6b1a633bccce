-- ===== src/Win/Api.antt =====
-- Windows and its registered I/O, a parameter over the states `W` of the system and of the memory
-- that both share, and what bind_windows.go passes to it.
use batchudp.Prelude.{ℕ, Option, List}
use batchudp.Std.{Err}

-- `WinRingEndpoint`: a socket address, of which `content` are the 30 bytes behind the family.
pub record WinRingEndpoint : Type 0 where
  pub family : ℕ
  pub content : List ℕ

-- `winrio.Result`
pub record Completion : Type 0 where
  pub status : ℕ
  pub bytes_transferred : ℕ
  pub request_context : ℕ

-- Handles are numbers, 0 for none. What makes a handle returns it beside the error, as in Go.
pub record Rio (W : Type 0) : Type 0 where
  pub af_inet : ℕ
  pub af_inet6 : ℕ
  pub wsaemsgsize : ℕ
  -- `isOpen`, an atomic that other goroutines read and set
  pub load_is_open : W → ℕ
  pub store_is_open : ℕ → W → W
  pub virtual_alloc : W → W × ℕ × Option Err
  pub register_pointer : ℕ → W → W × ℕ × Option Err
  pub create_completion_port : W → W × ℕ × Option Err
  pub create_completion_queue : ℕ → W → W × ℕ × Option Err
  pub socket : ℕ → W → W × ℕ × Option Err
  -- the socket, and the queues for receiving and sending
  pub create_request_queue : ℕ → ℕ → ℕ → W → W × ℕ × Option Err
  -- `Bind` to a family's port
  pub bind_to : ℕ → ℕ → ℕ → W → W × Option Err
  -- the port in `Getsockname`
  pub sock_port : ℕ → W → ℕ × Option Err
  pub close_completion_queue : ℕ → W → W
  pub close_handle : ℕ → W → W
  pub deregister_buffer : ℕ → W → W
  pub virtual_free : ℕ → W → W
  -- at most so many completions of a queue
  pub dequeue_completion : ℕ → ℕ → W → W × List Completion
  pub notify : ℕ → W → W × Option Err
  -- `GetQueuedCompletionStatus`, which waits
  pub wait_status : ℕ → W → W × Option Err
  pub post_status : ℕ → W → W
  -- the request queue, the ring's buffer and the slot, which is also the request's context
  pub receive_ex : ℕ → ℕ → ℕ → W → W × Option Err
  -- the same, with the address and the bytes in the slot
  pub send_ex : ℕ → ℕ → ℕ → WinRingEndpoint → List ℕ → W → W × Option Err
  -- the address and the bytes in a slot of a receive ring, by the ring's memory
  pub slot_addr : ℕ → ℕ → W → WinRingEndpoint
  pub slot_bytes : ℕ → ℕ → W → List ℕ
  -- `SetsockoptInt` for the unicast interface, of IPv4 and of IPv6
  pub set_unicast_if4 : ℕ → ℕ → W → W × Option Err
  pub set_unicast_if6 : ℕ → ℕ → W → W × Option Err
  -- `SubscribeCloser` of the network, and the function that it returns
  pub subscribe_closer : W → W × Option Err
  pub unsubscribe : W → W
