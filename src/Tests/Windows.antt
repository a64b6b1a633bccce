-- ===== src/Tests/Windows.antt =====
-- Runs of WinRingBind, on a system whose state is `isOpen` and which completes one packet at a time.
use batchudp.Prelude.{
  List, ◌++◌, ◌==◌, if◌then◌else◌, ℕ, ◌+◌, ◌-◌, ◌%◌, ◌≡◌, refl, true, false, some, none, [], ◌∷◌,
  arith,
}
use batchudp.Std.{errno}
use batchudp.Win.Ring.{RingBuffer, push, return_packets}
use batchudp.Win.Ring.Count.{used, IsRing, Pushed, push-Pushed, used-return_packets}
use batchudp.Win.Api.{WinRingEndpoint, Completion, Rio}
use batchudp.Win.Queue.{AfWinRingBind, returns, receive, send}
use batchudp.Win.Queue.Outstanding.{Keeps, Fits, receive-Keeps}
use batchudp.Win.Queue.Sending.{Safe, send-Safe}
use batchudp.Win.Open.{WinRingBind, open_both, open_win, zero_ring}
use batchudp.Win.Open.Filled.{Starts, zero_ring-Out, open_win-Starts}
use batchudp.Win.Open.Closed.{Resource, queue, handle, buffer, memory, Closings}
use batchudp.Win.Bind.{send_win, bind_socket_to_interface4}
use batchudp.Win.Bind.Blackhole.{send_win-bind_socket}

abbrev completed : Completion
completed = record { status = 0; bytes_transferred = 2; request_context = 0 }

abbrev endpoint : WinRingEndpoint
endpoint = record { family = 2; content = 202 ∷ 108 ∷ 127 ∷ 0 ∷ 0 ∷ 1 ∷ [] }

abbrev windows : Rio ℕ
windows = record {
  af_inet = 2;
  af_inet6 = 23;
  wsaemsgsize = 10040;
  load_is_open = λ w. w;
  store_is_open = λ v w. v;
  virtual_alloc = λ w. (w, 11, none);
  register_pointer = λ p w. (w, 12, none);
  create_completion_port = λ w. (w, 13, none);
  create_completion_queue = λ p w. (w, 14, none);
  socket = λ f w. (w, 15, none);
  create_request_queue = λ s r t w. (w, 16, none);
  bind_to = λ s f p w. (w, none);
  sock_port = λ s w. (51820, none);
  close_completion_queue = λ h w. w;
  close_handle = λ h w. w;
  deregister_buffer = λ h w. w;
  virtual_free = λ h w. w;
  dequeue_completion = λ q n w. (w, completed ∷ []);
  notify = λ q w. (w, none);
  wait_status = λ q w. (w, none);
  post_status = λ q w. w;
  receive_ex = λ q i s w. (w, none);
  send_ex = λ q i s a b w. (w, none);
  slot_addr = λ p s w. endpoint;
  slot_bytes = λ p s w. 7 ∷ 8 ∷ [];
  set_unicast_if4 = λ s i w. (w, none);
  set_unicast_if6 = λ s i w. (w, none);
  subscribe_closer = λ w. (w, none);
  unsubscribe = λ w. w;
}

-- `tail` is about to wrap, three packets are out
abbrev wrapping : RingBuffer
wrapping = record {
  packets = 11;
  head = 4294967292;
  tail = 4294967295;
  id = 12;
  iocp = 13;
  is_full = false;
  cq = 14;
}

-- all packets are out
abbrev full_ring : RingBuffer
full_ring = record wrapping { head = 5; tail = 261; is_full = true }

wrapping-IsRing : IsRing wrapping
wrapping-IsRing = record {
  small_head = omega arith;
  small_tail = omega arith;
  full_lem = λ e. absurd (ground arith);
}

full_ring-IsRing : IsRing full_ring
full_ring-IsRing = record {
  small_head = omega arith;
  small_tail = omega arith;
  full_lem = λ e. refl;
}

used-wrapping : used wrapping ≡ 3
unfolding used
used-wrapping = refl

used-full_ring : used full_ring ≡ 256
unfolding used
used-full_ring = refl

abbrev family : AfWinRingBind
family = record { sock = 15; rx = full_ring; tx = wrapping; rq = 16; blackhole = false }

abbrev empty : AfWinRingBind
empty = record { sock = 0; rx = zero_ring; tx = zero_ring; rq = 0; blackhole = false }

abbrev ring_bind : AfWinRingBind → WinRingBind
ring_bind b = record { v4 = b; v6 = b; subscriber = true; unsubscribe = false }

push-Pushed_example : Pushed wrapping (push wrapping)
push-Pushed_example = push-Pushed wrapping wrapping-IsRing (omega (arith, used-wrapping))

used-return_packets_example :
    (used (return_packets 2 wrapping) ≡ used wrapping - 2)
    × (((return_packets 2 wrapping).head % 256) ≡ (wrapping.head + 2) % 256)
    × IsRing (return_packets 2 wrapping)
used-return_packets_example =
    used-return_packets wrapping 2 wrapping-IsRing (omega arith) (omega (arith, used-wrapping))

windows-Fits : Fits windows
windows-Fits cq max w r more e = ground arith

receive-Keeps_example : Keeps family (receive windows 1 1500 family 1)
receive-Keeps_example =
    receive-Keeps windows windows-Fits 1 1500 family 1 full_ring-IsRing
      (omega (arith, used-full_ring))

send-Safe_example : Safe family (send windows family (1 ∷ 2 ∷ []) endpoint 1)
send-Safe_example =
    send-Safe windows family (1 ∷ 2 ∷ []) endpoint wrapping-IsRing
      (λ w. omega (arith, used-wrapping)) 1

-- a system without an IPv6 socket, which remembers what it gets back
abbrev no_ipv6 : Rio (ℕ × List Resource)
no_ipv6 = record {
  af_inet = 2;
  af_inet6 = 23;
  wsaemsgsize = 10040;
  load_is_open = λ w. w.0;
  store_is_open = λ v w. (v, w.1);
  virtual_alloc = λ w. (w, 11, none);
  register_pointer = λ p w. (w, 12, none);
  create_completion_port = λ w. (w, 13, none);
  create_completion_queue = λ p w. (w, 14, none);
  socket = λ f w. if f == 2 then (w, 15, none) else (w, 0, some (errno 10047));
  create_request_queue = λ s r t w. (w, 16, none);
  bind_to = λ s f p w. (w, none);
  sock_port = λ s w. (51820, none);
  close_completion_queue = λ h w. (w.0, w.1 ++ (queue h ∷ []));
  close_handle = λ h w. (w.0, w.1 ++ (handle h ∷ []));
  deregister_buffer = λ h w. (w.0, w.1 ++ (buffer h ∷ []));
  virtual_free = λ h w. (w.0, w.1 ++ (memory h ∷ []));
  dequeue_completion = λ q n w. (w, completed ∷ []);
  notify = λ q w. (w, none);
  wait_status = λ q w. (w, none);
  post_status = λ q w. w;
  receive_ex = λ q i s w. (w, none);
  send_ex = λ q i s a b w. (w, none);
  slot_addr = λ p s w. endpoint;
  slot_bytes = λ p s w. 7 ∷ 8 ∷ [];
  set_unicast_if4 = λ s i w. (w, none);
  set_unicast_if6 = λ s i w. (w, none);
  subscribe_closer = λ w. (w, none);
  unsubscribe = λ w. w;
}

no_ipv6-Closings : Closings no_ipv6
no_ipv6-Closings = record {
  closed = λ w. w.1;
  closed-queue = λ h w. refl;
  closed-handle = λ h w. refl;
  closed-buffer = λ h w. refl;
  closed-memory = λ h w. refl;
  closed-store = λ v w. refl;
  closed-unsubscribe = λ w. refl;
}

open_win-Starts_example :
    Starts no_ipv6 no_ipv6-Closings
      (open_both no_ipv6 0 (ring_bind empty) (0, []))
      (open_win no_ipv6 0 (ring_bind empty) (0, []))
open_win-Starts_example =
    open_win-Starts no_ipv6 no_ipv6-Closings 0 (ring_bind empty) (0, []) zero_ring-Out zero_ring-Out

send_win-bind_socket_example :
    send_win windows
      ((1 ∷ []) ∷ [])
      (some endpoint)
      (bind_socket_to_interface4 windows 4 true (ring_bind family) 1).1
      (bind_socket_to_interface4 windows 4 true (ring_bind family) 1).0
    ≡ (
      (bind_socket_to_interface4 windows 4 true (ring_bind family) 1).0,
      (bind_socket_to_interface4 windows 4 true (ring_bind family) 1).1,
      returns tt,
    )
send_win-bind_socket_example =
    send_win-bind_socket windows ((1 ∷ []) ∷ []) endpoint 4 (ring_bind family) 1 refl
      (unfold bind_socket_to_interface4 in refl)
