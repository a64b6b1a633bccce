-- ===== src/Win/Bind/Blackhole.antt =====
-- A family that was bound to an interface as a black hole.
use batchudp.Prelude.{ℕ, ◌≡◌, refl, ap, ◌∙◌, true, some, none, List, [], ◌∷◌, eq→==, arith}
use batchudp.Win.Api.{WinRingEndpoint, Rio}
use batchudp.Win.Queue.{Ended, returns}
use batchudp.Win.Open.{WinRingBind}
use batchudp.Win.Bind.{send_one, send_each, send_win, bind_socket_to_interface4}

module _ {W : Type 0} (rio : Rio W) where
  send_one-black :
      (buf : List ℕ) (nend : WinRingEndpoint) (b : WinRingBind) (w : W)
      → nend.family ≡ rio.af_inet
      → b.v4.blackhole ≡ true
      → send_one rio nend buf b w ≡ (w, b, returns tt)
  unfolding send_one
  send_one-black buf nend b w four black = simp (eq→== nend.family rio.af_inet four, black)

  send_each-black :
      (bufs : List (List ℕ)) (nend : WinRingEndpoint) (b : WinRingBind) (w : W)
      → nend.family ≡ rio.af_inet
      → b.v4.blackhole ≡ true
      → send_each rio bufs nend b w ≡ (w, b, returns tt)
  unfolding send_each
  send_each-black [] nend b w four black = refl
  send_each-black (buf ∷ bufs) nend b w four black =
      let e : send_one rio nend buf b w ≡ (w, b, returns tt) =
        send_one-black buf nend b w four black in
      let quiet : (send_one rio nend buf b w).2 ≡ returns tt =
        ap (λ (r : W × WinRingBind × Ended (Unit {0})). r.2) e in
      rw (quiet, send_each)
        (ap (λ (r : W × WinRingBind × Ended (Unit {0})). send_each rio bufs nend r.1 r.0) e
          ∙ send_each-black bufs nend b w four black)

  -- Once `BindSocketToInterface4` has made IPv4 a black hole, `Send` to an IPv4 endpoint succeeds
  -- without a call of the system and without a change of the bind.
  pub send_win-bind_socket :
      (bufs : List (List ℕ)) (nend : WinRingEndpoint) (index : ℕ) (b : WinRingBind) (w : W)
      → nend.family ≡ rio.af_inet
      → (bind_socket_to_interface4 rio index true b w).2 ≡ none
      → send_win rio bufs
          (some nend)
          (bind_socket_to_interface4 rio index true b w).1
          (bind_socket_to_interface4 rio index true b w).0
        ≡ (
          (bind_socket_to_interface4 rio index true b w).0,
          (bind_socket_to_interface4 rio index true b w).1,
          returns tt,
        )
  unfolding send_win
  send_win-bind_socket bufs nend index b w four bound =
      send_each-black bufs nend (bind_socket_to_interface4 rio index true b w).1
        (bind_socket_to_interface4 rio index true b w).0 four
        (unfold bind_socket_to_interface4 in ground arith)
