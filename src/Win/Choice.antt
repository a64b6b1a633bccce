-- ===== src/Win/Choice.antt =====
-- The binds that the constructors of bind_windows.go choose, with `winRingCloserSubscriber`
-- (closer_tracking.go), and what binding a StdNetBind to an interface does on Windows.
use batchudp.Prelude.{
  ℕ, ◌≡◌, refl, Bool, true, false, not, ◌||◌, Option, none, some, List, ltb, if◌then◌else◌, arith,
}
use batchudp.Slice.{Slice, Msg, is6}
use batchudp.Unix.{Unix}
use batchudp.Sticky.{Endpoint}
use batchudp.Std.{Err, err_closed, Conn, Bind, Options, new_std_net_bind_with_options}
use batchudp.Std.Send.{sends, send_bind, blackhole_of}
use batchudp.Write.{Writer}
use batchudp.Winrio.{Winsock, Probed, initialize}

-- What a constructor asks of a network; `none` is nil.
pub record Network : Type 0 where
  pub is_native : Bool
  pub subscribes : Bool

-- The bind that is made: a StdNetBind, with its state, or a WinRingBind.
pub data Chosen : Type 0 where
  std_bind : Bind → Chosen
  ring_bind : Chosen

unfoldable pub win_ring_closer_subscriber : Option Network → Bool
win_ring_closer_subscriber none = false
win_ring_closer_subscriber (some n) = if not n.is_native then false else n.subscribes

-- whether there is a network, and whether it is native
abbrev pub nativity : Option Network → Option Bool
nativity none = none
nativity (some n) = some n.is_native

-- the zero `StdNetBindOptions`
abbrev pub no_options : Options
no_options = record { ipv6_first = false; allow_single_family = false; notify = false }

unfoldable pub new_std_net_bind : Option Network → Bind
new_std_net_bind n = new_std_net_bind_with_options false (nativity n) no_options 0

module _ {W : Type 0} (sys : Winsock W) (overlapped : ℕ) where
  unfoldable pub new_win_ring_bind : Option Network → Probed → W → W × Probed × Chosen
  new_win_ring_bind n p w =
      if not (win_ring_closer_subscriber n)
      then (w, p, std_bind (new_std_net_bind n))
      else let (w', p', found) = initialize sys overlapped p w in
        (w', p', if not found then std_bind (new_std_net_bind n) else ring_bind)

  unfoldable pub new_default_bind : Option Network → Probed → W → W × Probed × Chosen
  new_default_bind n p w =
      if not (win_ring_closer_subscriber n)
      then (w, p, std_bind (new_std_net_bind n))
      else new_win_ring_bind n p w

  unfoldable pub new_default_bind_with_options :
      Option Network → Options → ℕ → Probed → W → W × Probed × Chosen
  new_default_bind_with_options n o size p w =
      if o.ipv6_first || (o.allow_single_family || (o.notify || ltb 0 size))
      then (w, p, std_bind (new_std_net_bind_with_options false (nativity n) o size))
      else new_default_bind n p w

  -- A ring is chosen only on a native network that tells of closing, where the probe has found
  -- registered I/O.
  new_default_bind-ring :
      (n : Option Network) (p : Probed) (w : W)
      → (new_default_bind n p w).2 ≡ ring_bind
      → (win_ring_closer_subscriber n ≡ true) × ((initialize sys overlapped p w).2 ≡ true)
  unfolding new_default_bind new_win_ring_bind
  new_default_bind-ring n p w h = (ground arith, ground arith)

-- `sockopt.Control` of a function that sets the unicast interface, whose error comes second
pub record Interfaces (W : Type 0) : Type 0 where
  pub control : Conn → W → Option Err
  pub set_unicast_if4 : Conn → ℕ → W → W × Option Err
  pub set_unicast_if6 : Conn → ℕ → W → W × Option Err

module _ {W : Type 0} (sys : Interfaces W) where
  unfoldable pub bind_std_to_interface4 : ℕ → Bool → Bind → W → W × Bind × Option Err
  bind_std_to_interface4 index blackhole s w = elim s.ipv4 [
    | none ↦ (w, s, some err_closed)
    | some c ↦ elim (sys.control c w) [
      | some e ↦ (w, s, some e)
      | none ↦
          let (w', bad) = sys.set_unicast_if4 c index w in
          elim bad [
            | some e ↦ (w', s, some e)
            | none ↦ (w', record s { blackhole4 = blackhole }, none)
          ]
    ]
  ]

  unfoldable pub bind_std_to_interface6 : ℕ → Bool → Bind → W → W × Bind × Option Err
  bind_std_to_interface6 index blackhole s w = elim s.ipv6 [
    | none ↦ (w, s, some err_closed)
    | some c ↦ elim (sys.control c w) [
      | some e ↦ (w, s, some e)
      | none ↦
          let (w', bad) = sys.set_unicast_if6 c index w in
          elim bad [
            | some e ↦ (w', s, some e)
            | none ↦ (w', record s { blackhole6 = blackhole }, none)
          ]
    ]
  ]

  -- Once IPv4 is a black hole, `Send` to an IPv4 endpoint succeeds and does nothing.
  send_bind-bind_std :
      (u : Unix) (k : Writer W) (index : ℕ) (s : Bind) (w w' : W) (ep : Endpoint)
      (bufs : List Slice) (msgs : List Msg) (ip : Slice)
      → (bind_std_to_interface4 index true s w).2 ≡ none
      → is6 ep.dst.addr ≡ false
      → send_bind u k (bind_std_to_interface4 index true s w).1 ep bufs msgs ip w'
        ≡ (w', (bind_std_to_interface4 index true s w).1, ip, sends)
  unfolding bind_std_to_interface4 send_bind blackhole_of
  send_bind-bind_std u k index s w w' ep bufs msgs ip bound four =
      let black : (bind_std_to_interface4 index true s w).1.blackhole4 ≡ true = ground arith in
      rw (four, send_bind) (rw black refl)
