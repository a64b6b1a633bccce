-- ===== src/Pingpong.antt =====
-- The ping-pong program, examples/udp_pingpong/main.go: the choice of scenarios, the payloads, the
-- task group, the receive loop and the client's side of a session.
--
-- Flags that are not positive are 0. A byte is a number below 256. What the goroutines of a group
-- do is a sequence of events, and what the calls of a receive function return is a list; the clock,
-- and the text of messages, are not modelled.
pub mod Choice
pub mod Ending
pub mod Group
pub mod Loop
pub mod Payload
pub mod Session
use batchudp.Prelude.{
  ℕ, zero, suc, ◌+◌, ◌-◌, ◌*◌, ◌/◌, ◌%◌, ◌^◌, Bool, true, false, not, ◌&&◌, ◌||◌, Option, some,
  none, List, [], ◌∷◌, ◌++◌, map, length, take, leb, ltb, ◌==◌, if◌then◌else◌, same_text,
}
use batchudp.Std.{Err, err_closed, other_err, Outcome, ok, err}

abbrev pub max_udp_payload : ℕ
max_udp_payload = 65507

-- `config`, without its timeout.
pub record Config : Type 0 where
  pub mode : List ℕ
  pub sessions : ℕ
  pub round_trips : ℕ
  pub payload_size : ℕ

-- The three scenarios of the table.
pub data Scenario : Type 0 where
  channel : Scenario
  native : Scenario
  loopback : Scenario

-- "channel", "native", "loopback", "all"
abbrev pub name_of : Scenario → List ℕ
name_of channel = 99 ∷ 104 ∷ 97 ∷ 110 ∷ 110 ∷ 101 ∷ 108 ∷ []
name_of native = 110 ∷ 97 ∷ 116 ∷ 105 ∷ 118 ∷ 101 ∷ []
name_of loopback = 108 ∷ 111 ∷ 111 ∷ 112 ∷ 98 ∷ 97 ∷ 99 ∷ 107 ∷ []

abbrev pub all_name : List ℕ
all_name = 97 ∷ 108 ∷ 108 ∷ []

abbrev pub scenarios : List Scenario
scenarios = channel ∷ native ∷ loopback ∷ []

-- Why `run` refuses a configuration.
pub data Refusal : Type 0 where
  bad_sessions : Refusal
  bad_round_trips : Refusal
  small_payload : Refusal
  unknown_mode : Refusal
  large_payload : Scenario → Refusal

-- the loop of `selectScenarios`, over the rest of the table
unfoldable pub find_scenario : List ℕ → List Scenario → Option Scenario
find_scenario mode [] = none
find_scenario mode (s ∷ ss) =
    let rest = find_scenario mode ss in if same_text (name_of s) mode then some s else rest

unfoldable pub select_scenarios : List ℕ → Option (List Scenario)
select_scenarios mode =
    if same_text mode all_name
    then some scenarios
    else elim (find_scenario mode scenarios) [ none ↦ none | some s ↦ some (s ∷ []) ]

-- the first scenario that is not "channel"
unfoldable pub first_not_channel : List Scenario → Option Scenario
first_not_channel [] = none
first_not_channel (s ∷ ss) =
    let rest = first_not_channel ss in
    if not (same_text (name_of s) (name_of channel)) then some s else rest

-- How `run` ends: refused, behind a scenario that failed, or with all of them.
pub data RunEnd : Type 0 where
  refuses : Refusal → RunEnd
  scenario_fails : Scenario → Err → RunEnd
  succeeds : RunEnd

module _ {W : Type 0} (run_scenario : Config → Scenario → W → W × Option Err) where
  unfoldable pub run_all : Config → List Scenario → W → W × RunEnd
  run_all cfg [] w = (w, succeeds)
  run_all cfg (s ∷ ss) w =
      let (w', e) = run_scenario cfg s w in
      elim e [ some x ↦ (w', scenario_fails s x) | none ↦ run_all cfg ss w' ]

  unfoldable pub run : Config → W → W × RunEnd
  run cfg w =
      if cfg.sessions == 0
      then (w, refuses bad_sessions)
      else if cfg.round_trips == 0
      then (w, refuses bad_round_trips)
      else if ltb cfg.payload_size 16
      then (w, refuses small_payload)
      else elim (select_scenarios cfg.mode) [
        | none ↦ (w, refuses unknown_mode)
        | some selected ↦
            if ltb max_udp_payload cfg.payload_size
            then elim (first_not_channel selected) [
              | some s ↦ (w, refuses (large_payload s))
              | none ↦ run_all cfg selected w
            ]
            else run_all cfg selected w
      ]

-- `binary.LittleEndian.PutUint64`: the lowest of `n` bytes first.
unfoldable pub little_endian : ℕ → ℕ → List ℕ
little_endian zero v = []
little_endian (suc n) v = (v % 256) ∷ little_endian n (v / 256)

-- the bytes from `i` on, `n` of them
unfoldable pub filler : ℕ → ℕ → ℕ → ℕ → List ℕ
filler session round i zero = []
filler session round i (suc n) =
    ((session * 31 + round * 17 + i) % 256) ∷ filler session round (i + 1) n

-- `none` is the panic of a slice of fewer than 16 bytes.
unfoldable pub make_payload : ℕ → ℕ → ℕ → Option (List ℕ)
make_payload size session round =
    if ltb size 16
    then none
    else some
        (little_endian 8 session ++ (little_endian 8 round ++ filler session round 16 (size - 16)))

unfoldable pub max_packet_buffer : ℕ → ℕ
max_packet_buffer batch_size = if ltb 1 batch_size then max_udp_payload else max_udp_payload

-- `context.Canceled`
abbrev pub err_canceled : Err
err_canceled = other_err 2

unfoldable pub is_canceled : Err → Bool
is_canceled (other_err n) = n == 2
is_canceled _ = false

unfoldable pub is_closed_or_canceled : Err → Bool
is_closed_or_canceled err_closed = true
is_closed_or_canceled e = is_canceled e

-- `taskGroup`: its error, and the cause with which its context is done.
pub record TaskGroup : Type 0 where
  pub group_err : Option Err
  pub cause : Option Err

-- What happens to a group: a task returns, or the parent's context is done.
pub data Event : Type 0 where
  returns : Option Err → Event
  parent_done : Err → Event

abbrev pub new_task_group : TaskGroup
new_task_group = record { group_err = none; cause = none }

-- `g.cancel`: only the first cause counts.
abbrev pub cancel : Err → TaskGroup → TaskGroup
cancel e g = elim g.cause [ some c ↦ g | none ↦ record g { cause = some e } ]

unfoldable pub fail : Err → TaskGroup → TaskGroup
fail e g = elim g.group_err [ some x ↦ g | none ↦ cancel e (record g { group_err = some e }) ]

unfoldable pub happens : Event → TaskGroup → TaskGroup
happens (returns none) g = g
happens (returns (some e)) g = if is_canceled e then g else fail e g
happens (parent_done e) g = cancel e g

unfoldable pub happen : List Event → TaskGroup → TaskGroup
happen [] g = g
happen (e ∷ es) g = happen es (happens e g)

-- `Wait`, behind the last task
unfoldable pub wait_group : TaskGroup → Option Err
wait_group g = elim g.group_err [
  | some e ↦ some e
  | none ↦ elim g.cause [ none ↦ none | some e ↦ if is_canceled e then none else some e ]
]

-- A slot behind a call of the receive function: the buffer, its size (at most the
-- buffer's length, as a receive function keeps it), and the endpoint.
pub record Slot : Type 0 where
  pub packet : List ℕ
  pub size : ℕ
  pub sender : Option ℕ

-- What a call of the receive function gives: the slots that it counts, or an error, with whether the
-- context is then done.
pub data Call : Type 0 where
  gives : List Slot → Call
  call_fails : Err → Bool → Call

-- the error of a handler, as the loop returns it
abbrev pub handler_error : Err → Option Err
handler_error e = if is_closed_or_canceled e then none else some e

module _ {W : Type 0} (handle : List ℕ → ℕ → W → W × Option Err) where
  -- The loop over the slots: `some` is what `receiveLoop` then returns.
  unfoldable pub handle_slots : List Slot → W → W × Option (Option Err)
  handle_slots [] w = (w, none)
  handle_slots (s ∷ ss) w = elim (s.size == 0) [
    | true ↦ handle_slots ss w
    | false ↦ elim s.sender [
      | none ↦ handle_slots ss w
      | some ep ↦
          let (w', e) = handle (take s.size s.packet) ep w in
          elim e [ some x ↦ (w', some (handler_error x)) | none ↦ handle_slots ss w' ]
    ]
  ]

  -- `receiveLoop` over what the calls give; `none` is a loop that waits in the next call.
  unfoldable pub receive_loop : List Call → W → W × Option (Option Err)
  receive_loop [] w = (w, none)
  receive_loop (call_fails e is_done ∷ calls) w =
      (w, some (if is_closed_or_canceled e then none else if is_done then none else some e))
  receive_loop (gives slots ∷ calls) w =
      let (w', r) = handle_slots slots w in
      elim r [ some x ↦ (w', some x) | none ↦ receive_loop calls w' ]

-- The two binds of a session, with the goroutines around them, over the states `W` of both.
pub record BindPair (W : Type 0) : Type 0 where
  -- `factory.NewPair`
  pub new_pair : W → W × Option Err
  -- `Open(0)`, of which the server's port is used
  pub open_server : W → W × Outcome ℕ
  pub open_client : W → W × Outcome ℕ
  -- `ParseEndpoint` of 127.0.0.1 and the port
  pub parse_endpoint : ℕ → W → Outcome ℕ
  -- the client's `Send` of one packet
  pub send_ping : List ℕ → ℕ → W → W × Option Err
  -- the `select`: a reply, or the cause with which the context is done
  pub await_reply : W → W × Outcome (List ℕ)
  pub close_client : W → W × Option Err
  pub close_server : W → W × Option Err
  -- `Wait` of the two groups
  pub wait_client : W → W × Option Err
  pub wait_server : W → W × Option Err

pub data SessionEnd : Type 0 where
  completes : SessionEnd
  session_fails : Err → SessionEnd
  -- in this round trip
  payload_mismatch : ℕ → SessionEnd
  session_panics : SessionEnd

unfoldable pub is_err_closed : Err → Bool
is_err_closed err_closed = true
is_err_closed _ = false

abbrev pub unless_closed : Option Err → Option Err
unless_closed none = none
unless_closed (some e) = if is_err_closed e then none else some e

module _ {W : Type 0} (pair : BindPair W) where
  -- The calls at the end, each with the errors that it lets pass.
  unfoldable pub finish_session : W → W × SessionEnd
  finish_session w =
      let (w1, e1) = pair.close_client w in
      let (w2, e2) = pair.close_server w1 in
      let (w3, e3) = pair.wait_client w2 in
      let (w4, e4) = pair.wait_server w3 in
      elim (unless_closed e1) [
        | some e ↦ (w1, session_fails e)
        | none ↦ elim (unless_closed e2) [
          | some e ↦ (w2, session_fails e)
          | none ↦ elim e3 [
            | some e ↦ (w3, session_fails e)
            | none ↦ elim e4 [ some e ↦ (w4, session_fails e) | none ↦ (w4, completes) ]
          ]
        ]
      ]

  -- The round trips from `round` on, `left` of them, to the server's endpoint.
  unfoldable pub ping_rounds : ℕ → ℕ → ℕ → ℕ → ℕ → W → W × SessionEnd
  ping_rounds zero round size session ep w = finish_session w
  ping_rounds (suc left) round size session ep w = elim (make_payload size session round) [
    | none ↦ (w, session_panics)
    | some payload ↦
        let (w1, bad) = pair.send_ping payload ep w in
        elim bad [
          | some e ↦ (w1, session_fails e)
          | none ↦
              let (w2, reply) = pair.await_reply w1 in
              elim reply [
                | err e ↦ (w2, session_fails e)
                | ok x ↦ elim (same_text x payload) [
                  | true ↦ ping_rounds left (round + 1) size session ep w2
                  | false ↦ (w2, payload_mismatch round)
                ]
              ]
        ]
  ]

  unfoldable pub exchange_pings : Config → ℕ → W → W × SessionEnd
  exchange_pings cfg session w =
      let (w1, server) = pair.open_server w in
      elim server [
        | err e ↦ (w1, session_fails e)
        | ok port ↦
            let (w2, client) = pair.open_client w1 in
            elim client [
              | err e ↦ (w2, session_fails e)
              | ok _ ↦ elim (pair.parse_endpoint port w2) [
                | err e ↦ (w2, session_fails e)
                | ok ep ↦ ping_rounds cfg.round_trips 0 cfg.payload_size session ep w2
              ]
            ]
      ]

  -- `runSession`, with the deferred calls of `Close`
  unfoldable pub run_session : Config → ℕ → W → W × SessionEnd
  run_session cfg session w =
      let (w1, bad) = pair.new_pair w in
      elim bad [
        | some e ↦ (w1, session_fails e)
        | none ↦
            let (w2, r) = exchange_pings cfg session w1 in
            let (w3, _) = pair.close_server w2 in let (w4, _) = pair.close_client w3 in (w4, r)
      ]
