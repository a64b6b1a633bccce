-- ===== src/Tests/Pinging.antt =====
-- Runs of the ping-pong program's parts.
use batchudp.Prelude.{ℕ, ◌≡◌, false, Option, none, some, List, [], ◌∷◌, ◌++◌, arith}
use batchudp.Std.{Err, err_closed, other_err}
use batchudp.Pingpong.{
  Config, Scenario, channel, native, loopback, name_of, all_name, run, make_payload, Event, returns,
  parent_done, happen, new_task_group, wait_group, Call, gives, call_fails, receive_loop,
  err_canceled,
}
use batchudp.Pingpong.Choice.{Decides, run-Decides}
use batchudp.Pingpong.Payload.{Tells, make_payload-Tells}
use batchudp.Pingpong.Group.{first_failure, first_done, or_else, not_canceled, wait_group-happen}
use batchudp.Pingpong.Loop.{arrivals, handle_all, ends_with, receive_loop-arrivals}

abbrev config : Config
config = record { mode = all_name; sessions = 64; round_trips = 128; payload_size = 61440 }

-- each scenario that runs leaves its name; the second one fails
abbrev runs : Config → Scenario → List (List ℕ) → List (List ℕ) × Option Err
runs cfg channel w = (w ++ (name_of channel ∷ []), none)
runs cfg native w = (w ++ (name_of native ∷ []), some (other_err 5))
runs cfg loopback w = (w ++ (name_of loopback ∷ []), none)

run-Decides_example : Decides runs config [] (run runs config [])
run-Decides_example = run-Decides runs config []

make_payload-Tells_example : Tells 20 3 258 (make_payload 20 3 258)
make_payload-Tells_example = make_payload-Tells 20 3 258 (omega arith) (omega arith) (omega arith)

abbrev events : List Event
events =
    returns none
    ∷ returns (some err_canceled)
    ∷ parent_done (other_err 7)
    ∷ returns (some (other_err 8))
    ∷ returns (some (other_err 9))
    ∷ []

wait_group-happen_example :
    wait_group (happen events new_task_group)
    ≡ or_else (first_failure events) (not_canceled (first_done events))
wait_group-happen_example = wait_group-happen events

-- a handler that keeps what it gets
abbrev keeps : List ℕ → ℕ → List (List ℕ) → List (List ℕ) × Option Err
keeps p ep w = (w ++ (p ∷ []), none)

abbrev calls : List Call
calls =
    gives (
      record { packet = 1 ∷ 2 ∷ 0 ∷ []; size = 2; sender = some 4 }
      ∷ record { packet = 9 ∷ []; size = 0; sender = some 4 }
      ∷ record { packet = 9 ∷ []; size = 1; sender = none }
      ∷ [])
    ∷ call_fails err_closed false
    ∷ []

receive_loop-arrivals_example :
    receive_loop keeps calls []
    ≡ ends_with keeps (arrivals calls).1 (handle_all keeps (arrivals calls).0 [])
receive_loop-arrivals_example = receive_loop-arrivals keeps calls []
