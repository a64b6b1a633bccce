-- ===== src/Tests/Opening.antt =====
-- A run of `Open` and `Close`, on a network that keeps a list of its sockets.
use batchudp.Prelude.{ℕ, ◌≡◌, refl, true, false, some, none, List, [], ◌∷◌, length}
use batchudp.Std.{
  Outcome, ok, err, other_err, Family, udp4, udp6, Net, Options, Bind,
  new_std_net_bind_with_options,
}
use batchudp.Std.Open.{ControlFn, open_bind}
use batchudp.Std.Open.Leaks.{Sockets, Leaves, remove, held, open_bind-Leaves}
use batchudp.Std.Close.{close_bind}
use batchudp.Std.Close.Reset.{close_bind-open_bind}

-- The handle of a new socket is the number of those that are open; IPv6 is not there.
abbrev pub listen : Family → ℕ → List ℕ → List ℕ × Outcome ℕ
listen udp4 port w = (length w ∷ w, ok (length w))
listen udp6 port w = (w, err (other_err 97))

abbrev pub local : Net (List ℕ)
local = record {
  listen_udp = listen;
  syscall_conn = λ c w. ok true;
  local_port = λ c w. ok 4000;
  close = λ c w. (remove c w, none);
  supports_offload = λ c w. (true, true);
  is_native = λ c. true;
}

abbrev buffer_sizes : ControlFn local
buffer_sizes f c w = (w, none)

listen_lem : (f : Family) (port : ℕ) (w : List ℕ) → (listen f port w).0 ≡ held (listen f port w).1 w
listen_lem udp4 port w = refl
listen_lem udp6 port w = refl

local-Sockets : Sockets local (buffer_sizes ∷ [])
local-Sockets = record {
  sockets = λ w. w;
  sockets-listen = listen_lem;
  sockets-close = λ c w. refl;
  sockets-control = (λ f c w. refl, tt);
}

abbrev pub options : Options
options = record { ipv6_first = false; allow_single_family = true; notify = true }

abbrev pub bind : Bind
bind = new_std_net_bind_with_options true (some true) options 0

open_bind-Leaves_example :
    Leaves (λ (w : List ℕ). w) bind [] (open_bind local (buffer_sizes ∷ []) bind 0 [])
unfolding local-Sockets
open_bind-Leaves_example = open_bind-Leaves local (buffer_sizes ∷ []) local-Sockets bind 0 []

close_bind-open_bind_example :
    ((close_bind local
        (open_bind local (buffer_sizes ∷ []) bind 0 []).1
        (open_bind local (buffer_sizes ∷ []) bind 0 []).0).1
      ≡ bind)
    × ((close_bind local
          (open_bind local (buffer_sizes ∷ []) bind 0 []).1
          (open_bind local (buffer_sizes ∷ []) bind 0 []).0).0
        ≡ [])
unfolding local-Sockets close_bind
close_bind-open_bind_example =
    close_bind-open_bind local (buffer_sizes ∷ []) local-Sockets true (some true) options 0 0 []
