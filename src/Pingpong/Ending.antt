-- ===== src/Pingpong/Ending.antt =====
-- How a session of the ping-pong program ends, over two binds that carry packets to a peer.
use batchudp.Prelude.{
  ℕ, ◌≤◌, ◌≡◌, refl, ap, ◌∙◌, Option, none, some, List, [], ◌∷◌, ◌++◌, length, arith,
}
use batchudp.Std.{Err, err_closed, ok}
use batchudp.Pingpong.{
  BindPair, SessionEnd, completes, session_fails, unless_closed, is_err_closed, finish_session,
}

-- Two binds that carry to a peer, which answers each packet of at most `room` bytes that goes to the
-- endpoint with one of its own, and that stay ready. The two calls of `Close` and the two of `Wait`
-- give errors of their own, or none. `log` is what the client has sent.
pub record Answers {W : Type 0} (pair : BindPair W) (ep room : ℕ) : Type 1 where
  pub IsReady : W → Type 0
  pub log : W → List (List ℕ)
  pub answer : List ℕ → List ℕ
  pub sends_it :
      (p : List ℕ) (w : W) → length p ≤ room → IsReady w → (pair.send_ping p ep w).1 ≡ none
  pub replies :
      (p : List ℕ) (w : W)
      → length p ≤ room
      → IsReady w
      → (pair.await_reply (pair.send_ping p ep w).0).1 ≡ ok (answer p)
  pub stays :
      (p : List ℕ) (w : W)
      → length p ≤ room
      → IsReady w
      → IsReady (pair.await_reply (pair.send_ping p ep w).0).0
  pub logs :
      (p : List ℕ) (w : W)
      → length p ≤ room
      → IsReady w
      → log (pair.await_reply (pair.send_ping p ep w).0).0 ≡ log w ++ (p ∷ [])
  pub client_close : Option Err
  pub server_close : Option Err
  pub client_wait : Option Err
  pub server_wait : Option Err
  pub is_client_close : (w : W) → (pair.close_client w).1 ≡ client_close
  pub is_server_close : (w : W) → (pair.close_server w).1 ≡ server_close
  pub is_client_wait : (w : W) → (pair.wait_client w).1 ≡ client_wait
  pub is_server_wait : (w : W) → (pair.wait_server w).1 ≡ server_wait
  pub log-close_client : (w : W) → log (pair.close_client w).0 ≡ log w
  pub log-close_server : (w : W) → log (pair.close_server w).0 ≡ log w
  pub log-wait_client : (w : W) → log (pair.wait_client w).0 ≡ log w
  pub log-wait_server : (w : W) → log (pair.wait_server w).0 ≡ log w

-- `net.ErrClosed` of a `Close` does not count.
unfoldable pub forgiven : Option Err → Option Err
forgiven none = none
forgiven (some err_closed) = none
forgiven (some e) = some e

-- The end with the first error of a list.
unfoldable pub first_error : List (Option Err) → SessionEnd
first_error [] = completes
first_error (none ∷ es) = first_error es
first_error (some e ∷ es) = session_fails e

unless_closed-forgiven : (e : Option Err) → unless_closed e ≡ forgiven e
unfolding forgiven is_err_closed
unless_closed-forgiven none = refl
unless_closed-forgiven (some e) = ground arith

-- the choice at the end of `finish_session`
first_of_four :
    {W : Type 0} (e1 e2 e3 e4 : Option Err) (w1 w2 w3 w4 : W)
    → (elim e1 as (λ _. W × SessionEnd) [
      | some e ↦ (w1, session_fails e)
      | none ↦ elim e2 as (λ _. W × SessionEnd) [
        | some e ↦ (w2, session_fails e)
        | none ↦ elim e3 as (λ _. W × SessionEnd) [
          | some e ↦ (w3, session_fails e)
          | none ↦ elim e4 as (λ _. W × SessionEnd) [
            | some e ↦ (w4, session_fails e)
            | none ↦ (w4, completes)
          ]
        ]
      ]
    ]).1
      ≡ first_error (e1 ∷ e2 ∷ e3 ∷ e4 ∷ [])
unfolding first_error
first_of_four (some e) e2 e3 e4 w1 w2 w3 w4 = refl
first_of_four none (some e) e3 e4 w1 w2 w3 w4 = refl
first_of_four none none (some e) e4 w1 w2 w3 w4 = refl
first_of_four none none none (some e) w1 w2 w3 w4 = refl
first_of_four none none none none w1 w2 w3 w4 = refl

module _ {W : Type 0} (pair : BindPair W) (ep room : ℕ) (laws : Answers pair ep room) where
  open laws use {
    log, client_close, server_close, client_wait, server_wait, is_client_close, is_server_close,
    is_client_wait, is_server_wait, log-close_client, log-close_server, log-wait_client,
    log-wait_server,
  }

  -- the errors of the calls at the end, in their order
  abbrev pub reports : List (Option Err)
  reports = forgiven client_close ∷ forgiven server_close ∷ client_wait ∷ server_wait ∷ []

  pub finish_session-first_error : (w : W) → (finish_session pair w).1 ≡ first_error reports
  unfolding finish_session
  finish_session-first_error w =
      let w1 = (pair.close_client w).0 in
      let w2 = (pair.close_server w1).0 in
      let w3 = (pair.wait_client w2).0 in
      let listed : unless_closed (pair.close_client w).1
            ∷ unless_closed (pair.close_server w1).1
            ∷ (pair.wait_client w2).1
            ∷ (pair.wait_server w3).1
            ∷ []
          ≡ reports =
        rw
          (
            is_client_close w,
            is_server_close w1,
            is_client_wait w2,
            is_server_wait w3,
            unless_closed-forgiven client_close,
            unless_closed-forgiven server_close,
          )
          refl in
      first_of_four (unless_closed (pair.close_client w).1) (unless_closed (pair.close_server w1).1)
        (pair.wait_client w2).1 (pair.wait_server w3).1 w1 w2 w3 (pair.wait_server w3).0
      ∙ ap first_error listed

  pub log-finish_session : (w : W) → log (finish_session pair w).0 ≡ log w
  unfolding finish_session
  log-finish_session w =
      let w1 = (pair.close_client w).0 in
      let w2 = (pair.close_server w1).0 in
      let w3 = (pair.wait_client w2).0 in
      ground
        (arith, log-close_client w, log-close_server w1, log-wait_client w2, log-wait_server w3)
