-- ===== src/Tests/Playing.antt =====
-- A session of the ping-pong program over two ChannelBinds, whose server sends every packet back,
-- and whose waits end with an error on the client's side.
use batchudp.Prelude.{
  ℕ, ◌≤◌, ◌≡◌, refl, ap, ◌∙◌, Option, none, some, List, [], ◌∷◌, ◌++◌, length, take, take-all,
  arith,
}
use batchudp.Std.{Err, err_closed, other_err, Outcome, ok, err}
use batchudp.Channel.{
  Chans, queue, put_queue, Chan, brx4, arx6, Sent, sent_all, stuck, sent_part, send_channel,
  send_round, left_bind, right_bind, made,
}
use batchudp.Pingpong.{Config, BindPair, run_session, max_udp_payload, all_name}
use batchudp.Pingpong.Ending.{Answers}
use batchudp.Pingpong.Session.{Plays, run_session-Plays}

-- the channels, and what the client has sent
record Table : Type 0 where
  chans : Chans
  sent : List (List ℕ)

abbrev nothing : Chans
nothing = record { in_arx4 = []; in_brx4 = []; in_arx6 = []; in_brx6 = [] }

-- the system behind a `Send`
abbrev sent_to : Table → Sent → Table × Option Err
sent_to t (sent_all q) = (record t { chans = q }, none)
sent_to t (stuck l q) = (record t { chans = q }, some (other_err 9))
sent_to t (sent_part e q) = (record t { chans = q }, some e)

-- A receive function with a buffer of `maxUDPPayload` bytes.
abbrev taken : Chan → Table → List (List ℕ) → Table × Outcome (List ℕ)
taken ch t [] = (t, err err_closed)
taken ch t (x ∷ xs) = (record t { chans = put_queue ch xs t.chans }, ok (take max_udp_payload x))

abbrev play : BindPair Table
play = record {
  new_pair = λ t. (record t { chans = nothing }, none);
  open_server = λ t. (t, ok 1);
  open_client = λ t. (t, ok 2);
  parse_endpoint = λ port t. ok port;
  send_ping = λ p ep t.
      sent_to (record t { sent = t.sent ++ (p ∷ []) })
        (send_channel (left_bind made) ep (p ∷ []) t.chans);
  -- the server's loop, and then the client's
  await_reply = λ t.
      let (t1, ping) = taken brx4 t (queue brx4 t.chans) in
      elim ping [
        | err e ↦ (t1, err e)
        | ok x ↦
            let (t2, bad) = sent_to t1 (send_channel (right_bind made) 4 (x ∷ []) t1.chans) in
            elim bad [ some e ↦ (t2, err e) | none ↦ taken arx6 t2 (queue arx6 t2.chans) ]
      ];
  close_client = λ t. (t, some err_closed);
  close_server = λ t. (t, none);
  wait_client = λ t. (t, some (other_err 5));
  wait_server = λ t. (t, none);
}

abbrev quiet : List (List ℕ) → Table
quiet l = record { chans = nothing; sent = l }

-- one ping and its reply
abbrev after_ping : List ℕ → Table → Table × Outcome (List ℕ)
after_ping p t = play.await_reply (play.send_ping p 1 t).0

there_and_back :
    (p : List ℕ) (l : List (List ℕ))
    → length p ≤ 65507
    → after_ping p (quiet l) ≡ (quiet (l ++ (p ∷ [])), ok p)
unfolding send_channel send_round
there_and_back p l fits =
    let whole : take 65507 p ≡ p = take-all 65507 p fits in
    rw whole (ap (λ x. (quiet (l ++ (p ∷ [])), ok x)) whole)

no_error : (p : List ℕ) (l : List (List ℕ)) → (play.send_ping p 1 (quiet l)).1 ≡ none
unfolding send_channel send_round
no_error p l = refl

is_quiet : (t : Table) → t.chans ≡ nothing → t ≡ quiet t.sent
is_quiet t ready = ap (λ q. record t { chans = q }) ready

answer :
    (p : List ℕ) (t : Table)
    → length p ≤ 65507
    → t.chans ≡ nothing
    → after_ping p t ≡ (quiet (t.sent ++ (p ∷ [])), ok p)
answer p t fits ready = ap (after_ping p) (is_quiet t ready) ∙ there_and_back p t.sent fits

play-Answers : Answers play 1 max_udp_payload
play-Answers = record {
  IsReady = λ t. t.chans ≡ nothing;
  log = λ t. t.sent;
  sends_it =
      λ p t fits ready. ap (λ x. (play.send_ping p 1 x).1) (is_quiet t ready) ∙ no_error p t.sent;
  replies = λ p t fits ready. ap (λ (r : Table × Outcome (List ℕ)). r.1) (answer p t fits ready);
  stays =
      λ p t fits ready. ap (λ (r : Table × Outcome (List ℕ)). r.0.chans) (answer p t fits ready);
  logs = λ p t fits ready. ap (λ (r : Table × Outcome (List ℕ)). r.0.sent) (answer p t fits ready);
  answer = λ p. p;
  client_close = some err_closed;
  server_close = none;
  client_wait = some (other_err 5);
  server_wait = none;
  is_client_close = λ t. refl;
  is_server_close = λ t. refl;
  is_client_wait = λ t. refl;
  is_server_wait = λ t. refl;
  log-wait_client = λ t. refl;
  log-wait_server = λ t. refl;
  log-close_client = λ t. refl;
  log-close_server = λ t. refl;
}

abbrev config : Config
config = record { mode = all_name; sessions = 1; round_trips = 3; payload_size = 17 }

run_session-Plays_example :
    Plays play 1 max_udp_payload play-Answers 17 0
      (omega arith)
      (omega arith)
      (omega arith)
      0
      3
      []
      (run_session play config 0 (quiet []))
unfolding play-Answers
run_session-Plays_example =
    run_session-Plays play 1 max_udp_payload play-Answers 17 0 (omega arith) (omega arith)
      (omega arith) config 1 2 (quiet []) refl (omega arith) refl refl refl refl refl
