-- ===== src/Write.antt =====
-- The loop that writes a batch of messages: in `send` of bind_std.go and in `writeBatch` of
-- batching_conn_linux.go. One `WriteBatch` writes some of them, from the first on.
--
-- The loop recurs on fuel, one more than the number of messages.
pub mod Whole
use batchudp.Prelude.{
  ℕ, zero, suc, ◌+◌, ◌≤◌, ◌<◌, ◌≡◌, List, [], ◌∷◌, ◌++◌, Option, some, none, length, take, drop,
  ltb, ◌==◌, if◌then◌else◌,
}
use batchudp.Std.{Err, Outcome, ok, err, Conn}
use batchudp.Slice.{Msg}

-- The writers of golang.org/x/net and of gonnect, a parameter over the states of the system.
pub record Writer (W : Type 0) : Type 0 where
  -- `WriteBatch`
  pub write_batch : Conn → List Msg → W → W × Outcome ℕ
  -- `WriteMsgUDPAddrPort`, on the fields of a message
  pub write_msg : Conn → Msg → W → W × Option Err

pub data Written : Type 0 where
  done : Written
  failed : Err → Written
  -- a slice bound out of range
  panicked : Written
  starved : Written

module _ {W : Type 0} (k : Writer W) where
  unfoldable pub write_loop : ℕ → Conn → List Msg → W → W × Written
  write_loop zero c msgs w = (w, starved)
  write_loop (suc fuel) c msgs w =
      let (w', r) = k.write_batch c msgs w in
      elim r [
        | err e ↦ (w', failed e)
        | ok n ↦
            let rest = write_loop fuel c (drop n msgs) w' in
            if n == length msgs
            then (w', done)
            else if ltb (length msgs) n
            then (w', panicked)
            else rest
      ]

  unfoldable pub write_all : Conn → List Msg → W → W × Written
  write_all c msgs w = write_loop (suc (length msgs)) c msgs w

  -- Without batches, one message after the other.
  unfoldable pub write_each : Conn → List Msg → W → W × Written
  write_each c [] w = (w, done)
  write_each c (m ∷ ms) w =
      let (w', e) = k.write_msg c m w in
      let rest = write_each c ms w' in elim e [ some x ↦ (w', failed x) | none ↦ rest ]

  -- `send`: in batches where the family has a batch writer
  unfoldable pub send_messages : Conn → Option Conn → List Msg → W → W × Written
  send_messages c none msgs w = write_each c msgs w
  send_messages c (some pc) msgs w = write_all pc msgs w
