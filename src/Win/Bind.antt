-- ===== src/Win/Bind.antt =====
-- `WinRingBind` over its two families, and `WinRingEndpoint`: bind_windows.go.
pub mod Blackhole
use batchudp.Prelude.{
  ℕ, zero, suc, ◌+◌, ◌*◌, ◌≡◌, refl, ap, ap₂, ◌∙◌, Bool, true, false, not, ◌&&◌, Option, some, none,
  List, [], ◌∷◌, ◌++◌, length, take, drop, ◌==◌, if◌then◌else◌, set, arith,
}
use batchudp.Std.{Err, err_closed, err_wrong_endpoint_type}
use batchudp.Slice.{Addr, zero_addr, v4, v6}
use batchudp.Conn.{validate_receive_buffers}
use batchudp.Win.Api.{WinRingEndpoint, Rio}
use batchudp.Win.Queue.{
  AfWinRingBind, Ended, returns, fails, panics, starves, Received, receive, send,
}
use batchudp.Win.Open.{WinRingBind}

abbrev pub batch_size : ℕ
batch_size = 1

-- `receiveIPv4` and `receiveIPv6` on their family: what lands in `sizes[0]` and `eps[0]`.
pub data Filled : Type 0 where
  slot_zero : List ℕ → Option WinRingEndpoint → Option Err → Filled
  rejected : Err → Filled
  stuck : Filled

module _ {W : Type 0} (rio : Rio W) where
  unfoldable pub receive_one : ℕ → ℕ → ℕ → ℕ → ℕ → AfWinRingBind → W → W × AfWinRingBind × Filled
  receive_one fuel bufs sizes eps room b w =
      if not (rio.load_is_open w == 1)
      then (w, b, rejected err_closed)
      else elim (validate_receive_buffers bufs sizes eps batch_size) [
        | some e ↦ (w, b, rejected e)
        | none ↦
            let (w', b', r) = receive rio fuel room b w in
            elim r [
              | returns got ↦ (w', b', slot_zero got.bytes (some got.from) none)
              | fails e ↦ (w', b', slot_zero [] none (some e))
              | panics ↦ (w', b', stuck)
              | starves ↦ (w', b', stuck)
            ]
      ]

  unfoldable pub receive_ipv4 : ℕ → ℕ → ℕ → ℕ → ℕ → WinRingBind → W → W × WinRingBind × Filled
  receive_ipv4 fuel bufs sizes eps room b w =
      let (w', f, r) = receive_one fuel bufs sizes eps room b.v4 w in (w', record b { v4 = f }, r)

  unfoldable pub receive_ipv6 : ℕ → ℕ → ℕ → ℕ → ℕ → WinRingBind → W → W × WinRingBind × Filled
  receive_ipv6 fuel bufs sizes eps room b w =
      let (w', f, r) = receive_one fuel bufs sizes eps room b.v6 w in (w', record b { v6 = f }, r)

  -- One round of the loop in `Send`.
  unfoldable pub send_one :
      WinRingEndpoint → List ℕ → WinRingBind → W → W × WinRingBind × Ended (Unit {0})
  send_one nend buf b w =
      if nend.family == rio.af_inet
      then (if b.v4.blackhole
          then (w, b, returns tt)
          else let (w', f, r) = send rio b.v4 buf nend w in (w', record b { v4 = f }, r))
      else if nend.family == rio.af_inet6
      then (if b.v6.blackhole
          then (w, b, returns tt)
          else let (w', f, r) = send rio b.v6 buf nend w in (w', record b { v6 = f }, r))
      else (w, b, returns tt)

  -- The loop of `Send`.
  unfoldable pub send_each :
      List (List ℕ) → WinRingEndpoint → WinRingBind → W → W × WinRingBind × Ended (Unit {0})
  send_each [] nend b w = (w, b, returns tt)
  send_each (buf ∷ bufs) nend b w =
      let (w', b', r) = send_one nend buf b w in
      let rest = send_each bufs nend b' w' in
      elim r [
        | returns t ↦ rest
        | fails e ↦ (w', b', fails e)
        | panics ↦ (w', b', panics)
        | starves ↦ (w', b', starves)
      ]

  -- `Send`; `none` is an endpoint of another type.
  unfoldable pub send_win :
      List (List ℕ) → Option WinRingEndpoint → WinRingBind → W → W × WinRingBind × Ended (Unit {0})
  send_win bufs none b w = (w, b, fails err_wrong_endpoint_type)
  send_win bufs (some nend) b w = send_each bufs nend b w

  -- `BindSocketToInterface4` and `6`
  unfoldable pub bind_socket_to_interface4 :
      ℕ → Bool → WinRingBind → W → W × WinRingBind × Option Err
  bind_socket_to_interface4 index blackhole b w =
      if not (rio.load_is_open w == 1)
      then (w, b, some err_closed)
      else let (w', e) = rio.set_unicast_if4 b.v4.sock index w in
        elim e [
          | some x ↦ (w', b, some x)
          | none ↦ (w', record b { v4 = record b.v4 { blackhole = blackhole } }, none)
        ]

  unfoldable pub bind_socket_to_interface6 :
      ℕ → Bool → WinRingBind → W → W × WinRingBind × Option Err
  bind_socket_to_interface6 index blackhole b w =
      if not (rio.load_is_open w == 1)
      then (w, b, some err_closed)
      else let (w', e) = rio.set_unicast_if6 b.v6.sock index w in
        elim e [
          | some x ↦ (w', b, some x)
          | none ↦ (w', record b { v6 = record b.v6 { blackhole = blackhole } }, none)
        ]

  -- `e.data[from:from+count]`
  abbrev cut : WinRingEndpoint → ℕ → ℕ → List ℕ
  cut e from count = take count (drop from e.content)

  unfoldable pub dst_ip : WinRingEndpoint → Addr
  dst_ip e =
      if e.family == rio.af_inet
      then v4 (cut e 2 4)
      else if e.family == rio.af_inet6
      then v6 (cut e 6 16)
      else zero_addr

  -- the port behind the address, its bytes swapped
  unfoldable pub dst_to_bytes : WinRingEndpoint → List ℕ
  dst_to_bytes e =
      if e.family == rio.af_inet
      then cut e 2 4 ++ (cut e 1 1 ++ cut e 0 1)
      else if e.family == rio.af_inet6
      then cut e 6 16 ++ (cut e 1 1 ++ cut e 0 1)
      else []
