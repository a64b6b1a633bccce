-- ===== src/Tests/Probing.antt =====
-- Runs of the probe for registered I/O, on a system that keeps lists of what is open, and that makes
-- a request queue never.
use batchudp.Prelude.{ℕ, refl, false, none, List, [], ◌∷◌}
use batchudp.Std.{ok}
use batchudp.Std.Open.Leaks.{remove}
use batchudp.Winrio.{Winsock, initialize}
use batchudp.Winrio.Probe.{Resources, Initializes, initialize-Initializes}

abbrev Open : Type 0
Open = List ℕ × List ℕ

abbrev windows : Winsock Open
windows = record {
  wsa_socket = λ a t p w. ((11 ∷ w.0, w.1), ok 11);
  load_table = λ s w. (w, none);
  create_port = λ w. ((12 ∷ w.0, w.1), ok 12);
  close_handle = λ h w. (remove h w.0, w.1);
  rio_create_completion_queue = λ n m w. ((w.0, 13 ∷ w.1), 13, 0);
  rio_close_completion_queue = λ q w. (w.0, remove q w.1);
  rio_create_request_queue = λ s z a b c w. (w, 0, 10022);
  rio_dequeue_completion = λ q a n w. (w, 0);
  rio_register_buffer = λ p n w. (w, 1, 0);
  rio_deregister_buffer = λ b w. w;
  rio_send_ex = λ r w. (w, 1, 0);
  rio_receive_ex = λ r w. (w, 1, 0);
  rio_notify = λ q w. (w, 0);
  af_inet = 2;
  sock_dgram = 2;
  ipproto_udp = 17;
}

windows-Resources : Resources windows
windows-Resources = record {
  owned = λ w. w;
  owned-socket = λ a t p w. refl;
  owned-table = λ s w. refl;
  owned-port = λ w. refl;
  owned-close = λ h w. refl;
  owned-queue = λ n m w. refl;
  owned-close_queue = λ q w. refl;
  owned-request = λ s z a b c w. refl;
}

initialize-Initializes_example :
    Initializes windows windows-Resources
      (5 ∷ [], [])
      (initialize windows 0 (record { initialized = false; available = false }) (5 ∷ [], []))
initialize-Initializes_example =
    initialize-Initializes windows windows-Resources 0
      (record { initialized = false; available = false }) (5 ∷ [], [])
