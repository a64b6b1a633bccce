-- ===== src/Winrio.antt =====
-- winrio/rio_windows.go: the probe for registered I/O, `Initialize`, and the calls through the table
-- of extension functions.
--
-- Windows is the parameter `Winsock`; a call through the table returns its value and the error
-- number. Pointers are numbers, 0 for nil. The log line of `Initialize` is not modelled.
pub mod Probe
use batchudp.Prelude.{ℕ, Bool, true, false, Option, none, some, ◌==◌, ltb, if◌then◌else◌}
use batchudp.Std.{Err, errno, Outcome, ok, err}

abbrev pub invalid_buffer_id : ℕ
invalid_buffer_id = 0xFFFFFFFF

abbrev pub invalid_cq : ℕ
invalid_cq = 0

abbrev pub invalid_rq : ℕ
invalid_rq = 0

abbrev pub corrupt_cq : ℕ
corrupt_cq = 0xFFFFFFFF

-- What a completion queue notifies, and the argument of the call that makes it.
pub data Notification : Type 0 where
  -- the event, and `notifyReset`
  event_completion : ℕ → ℕ → Notification
  -- the port, the key, and the overlapped structure
  iocp_completion : ℕ → ℕ → ℕ → Notification
  polled : Notification

-- `Buffer`; the arguments of `SendEx` and `ReceiveEx` are of this type, none for nil.
pub record Buffer : Type 0 where
  pub id : ℕ
  pub offset : ℕ
  pub length : ℕ

pub record Request : Type 0 where
  pub queue : ℕ
  pub buf : Option Buffer
  pub data_buffer_count : ℕ
  pub local_address : Option Buffer
  pub remote_address : Option Buffer
  pub control_context : Option Buffer
  pub flags : Option Buffer
  pub sflags : ℕ
  pub request_context : ℕ

pub record QueueSizes : Type 0 where
  pub max_outstanding_receive : ℕ
  pub max_receive_data_buffers : ℕ
  pub max_outstanding_send : ℕ
  pub max_send_data_buffers : ℕ

abbrev pub one_each : QueueSizes
one_each = record {
  max_outstanding_receive = 1;
  max_receive_data_buffers = 1;
  max_outstanding_send = 1;
  max_send_data_buffers = 1;
}

pub record Winsock (W : Type 0) : Type 0 where
  -- `WSASocket` with WSA_FLAG_REGISTERED_IO
  pub wsa_socket : ℕ → ℕ → ℕ → W → W × Outcome ℕ
  -- `WSAIoctl` for the table
  pub load_table : ℕ → W → W × Option Err
  -- `CreateIoCompletionPort` of no file
  pub create_port : W → W × Outcome ℕ
  pub close_handle : ℕ → W → W
  pub rio_create_completion_queue : ℕ → Notification → W → W × ℕ × ℕ
  pub rio_close_completion_queue : ℕ → W → W
  -- the socket, the sizes, the two queues, the context
  pub rio_create_request_queue : ℕ → QueueSizes → ℕ → ℕ → ℕ → W → W × ℕ × ℕ
  -- the queue, the array of results and its length
  pub rio_dequeue_completion : ℕ → ℕ → ℕ → W → W × ℕ
  pub rio_register_buffer : ℕ → ℕ → W → W × ℕ × ℕ
  pub rio_deregister_buffer : ℕ → W → W
  pub rio_send_ex : Request → W → W × ℕ × ℕ
  pub rio_receive_ex : Request → W → W × ℕ × ℕ
  pub rio_notify : ℕ → W → W × ℕ
  pub af_inet : ℕ
  pub sock_dgram : ℕ
  pub ipproto_udp : ℕ

-- A value, or the error where it is the invalid one.
abbrev pub unless_invalid : ℕ → ℕ → ℕ → Outcome ℕ
unless_invalid invalid ret e = if ret == invalid then err (errno e) else ok ret

-- the same, of a call that returns a Boolean
abbrev pub unless_zero : ℕ → ℕ → Option Err
unless_zero ret e = if ret == 0 then some (errno e) else none

-- `initialized` and `available`
pub record Probed : Type 0 where
  pub initialized : Bool
  pub available : Bool

module _ {W : Type 0} (sys : Winsock W) where
  unfoldable pub create_event_completion_queue : ℕ → ℕ → Bool → W → W × Outcome ℕ
  create_event_completion_queue size event notify_reset w =
      let (w', ret, e) =
        sys.rio_create_completion_queue size
          (event_completion event (if notify_reset then 1 else 0)) w in
      (w', unless_invalid invalid_cq ret e)

  unfoldable pub create_iocp_completion_queue : ℕ → ℕ → ℕ → ℕ → W → W × Outcome ℕ
  create_iocp_completion_queue size iocp key overlapped w =
      let (w', ret, e) =
        sys.rio_create_completion_queue size (iocp_completion iocp key overlapped) w in
      (w', unless_invalid invalid_cq ret e)

  unfoldable pub create_polled_completion_queue : ℕ → W → W × Outcome ℕ
  create_polled_completion_queue size w =
      let (w', ret, e) = sys.rio_create_completion_queue size polled w in
      (w', unless_invalid invalid_cq ret e)

  unfoldable pub create_request_queue : ℕ → QueueSizes → ℕ → ℕ → ℕ → W → W × Outcome ℕ
  create_request_queue sock sizes receive_cq send_cq context w =
      let (w', ret, e) = sys.rio_create_request_queue sock sizes receive_cq send_cq context w in
      (w', unless_invalid invalid_rq ret e)

  -- `array` is the address of the first result; `none` is the panic on a corrupt queue.
  unfoldable pub dequeue_completion : ℕ → ℕ → ℕ → W → W × Option ℕ
  dequeue_completion cq array len w =
      let (w', ret) = sys.rio_dequeue_completion cq (if ltb 0 len then array else 0) len w in
      (w', if ret == corrupt_cq then none else some ret)

  unfoldable pub register_pointer : ℕ → ℕ → W → W × Outcome ℕ
  register_pointer ptr size w =
      let (w', ret, e) = sys.rio_register_buffer ptr size w in
      (w', unless_invalid invalid_buffer_id ret e)

  -- `array` is the address of the first byte of the slice
  unfoldable pub register_buffer : ℕ → ℕ → W → W × Outcome ℕ
  register_buffer array len w = register_pointer (if ltb 0 len then array else 0) len w

  unfoldable pub send_ex : Request → W → W × Option Err
  send_ex r w = let (w', ret, e) = sys.rio_send_ex r w in (w', unless_zero ret e)

  unfoldable pub receive_ex : Request → W → W × Option Err
  receive_ex r w = let (w', ret, e) = sys.rio_receive_ex r w in (w', unless_zero ret e)

  unfoldable pub notify_queue : ℕ → W → W × Option Err
  notify_queue cq w =
      let (w', ret) = sys.rio_notify cq w in (w', if ret == 0 then none else some (errno ret))

  -- Its part with the two queues.
  unfoldable pub probe_queues : ℕ → ℕ → ℕ → W → W × Bool
  probe_queues sock port overlapped w =
      let (w1, queue) = create_iocp_completion_queue 2 port 0 overlapped w in
      elim queue [
        | err e ↦ (w1, false)
        | ok cq ↦
            let (w2, rq) = create_request_queue sock one_each cq cq 0 w1 in
            let w3 = sys.rio_close_completion_queue cq w2 in
            elim rq [ err e ↦ (w3, false) | ok r ↦ (w3, true) ]
      ]

  -- What `Initialize` does once, with the deferred calls in their order.
  unfoldable pub probe : ℕ → W → W × Bool
  probe overlapped w =
      let (w1, opened) = sys.wsa_socket sys.af_inet sys.sock_dgram sys.ipproto_udp w in
      elim opened [
        | err e ↦ (w1, false)
        | ok sock ↦
            let (w2, bad) = sys.load_table sock w1 in
            elim bad [
              | some e ↦ (sys.close_handle sock w2, false)
              | none ↦
                  let (w3, made) = sys.create_port w2 in
                  elim made [
                    | err e ↦ (sys.close_handle sock w3, false)
                    | ok port ↦
                        let (w4, found) = probe_queues sock port overlapped w3 in
                        (sys.close_handle sock (sys.close_handle port w4), found)
                  ]
            ]
      ]

  -- `Initialize`, with `sync.Once`
  unfoldable pub initialize : ℕ → Probed → W → W × Probed × Bool
  initialize overlapped p w =
      if p.initialized
      then (w, p, p.available)
      else let (w', found) = probe overlapped w in
        let p' =
          (if found
            then record p { initialized = true; available = true }
            else record p { initialized = true }) in
        (w', p', p'.available)
