-- ===== src/Channel.antt =====
-- ChannelBind of bindtest/bindtest.go: two binds over four Go channels of bytes.
--
-- A channel is the list of what is in it, the oldest first, and is known by its name. The `select`
-- statements choose: `Receives` is a relation, and a step of the two binds is one of `Step`.
pub mod Traffic
pub mod Exchange
use batchudp.Prelude.{
  ℕ, ◌%◌, ◌≡◌, ◌≢◌, ◌⊎◌, Bool, true, false, Option, some, none, List, [], ◌∷◌, ◌++◌, length, take,
  ltb, ◌==◌, if◌then◌else◌,
}
use batchudp.Std.{Err, err_closed, other_err}

abbrev pub chan_cap : ℕ
chan_cap = 8192

-- `os.ErrInvalid`
abbrev pub err_invalid : Err
err_invalid = other_err 1

-- The four channels that `NewChannelBinds` makes.
pub data Chan : Type 0 where
  arx4 : Chan
  brx4 : Chan
  arx6 : Chan
  brx6 : Chan

pub record Chans : Type 0 where
  pub in_arx4 : List (List ℕ)
  pub in_brx4 : List (List ℕ)
  pub in_arx6 : List (List ℕ)
  pub in_brx6 : List (List ℕ)

abbrev pub queue : Chan → Chans → List (List ℕ)
queue arx4 q = q.in_arx4
queue brx4 q = q.in_brx4
queue arx6 q = q.in_arx6
queue brx6 q = q.in_brx6

abbrev pub put_queue : Chan → List (List ℕ) → Chans → Chans
put_queue arx4 x q = record q { in_arx4 = x }
put_queue brx4 x q = record q { in_brx4 = x }
put_queue arx6 x q = record q { in_arx6 = x }
put_queue brx6 x q = record q { in_brx6 = x }

-- `closeSignal`: nil, made, or closed.
pub data Signal : Type 0 where
  no_signal : Signal
  made : Signal
  shut : Signal

-- `ChannelBind`; an endpoint is a `uint16`.
pub record ChannelBind : Type 0 where
  pub rx4 : Chan
  pub tx4 : Chan
  pub rx6 : Chan
  pub tx6 : Chan
  pub close_signal : Signal
  pub source4 : ℕ
  pub source6 : ℕ
  pub target4 : ℕ
  pub target6 : ℕ

pub record Pair : Type 0 where
  pub left : ChannelBind
  pub right : ChannelBind
  pub chans : Chans

-- The two binds of `NewChannelBinds`, at any point of their lives.
abbrev pub left_bind : Signal → ChannelBind
left_bind s = record {
  rx4 = arx4;
  tx4 = brx4;
  rx6 = arx6;
  tx6 = brx6;
  close_signal = s;
  source4 = 2;
  source6 = 4;
  target4 = 1;
  target6 = 3;
}

abbrev pub right_bind : Signal → ChannelBind
right_bind s = record {
  rx4 = brx4;
  tx4 = arx4;
  rx6 = brx6;
  tx6 = arx6;
  close_signal = s;
  source4 = 1;
  source6 = 3;
  target4 = 2;
  target6 = 4;
}

unfoldable pub new_channel_binds : Pair
new_channel_binds = record {
  left = left_bind no_signal;
  right = right_bind no_signal;
  chans = record { in_arx4 = []; in_brx4 = []; in_arx6 = []; in_brx6 = [] };
}

-- The bind, the channels of the receive functions, and the port, which a coin chooses.
unfoldable pub open_channel : Bool → ChannelBind → ChannelBind × List Chan × ℕ
open_channel coin c =
    (record c { close_signal = made }, c.rx4 ∷ c.rx6 ∷ [], if coin then c.source4 else c.source6)

unfoldable pub close_channel : ChannelBind → ChannelBind
close_channel c = record c {
  close_signal = elim c.close_signal [ no_signal ↦ no_signal | made ↦ shut | shut ↦ shut ];
}

-- What one round of `Send` does.
pub data Round : Type 0 where
  into : Chan → Chans → Round
  -- the channel is full, and the sender waits
  waits : Round
  send_fails : Err → Round

abbrev pub is_shut : Signal → Bool
is_shut shut = true
is_shut _ = false

abbrev pub into_chan : Chan → List ℕ → Chans → Round
into_chan ch b q =
    if ltb (length (queue ch q)) chan_cap
    then into ch (put_queue ch (queue ch q ++ (b ∷ [])) q)
    else waits

unfoldable pub send_round : ChannelBind → ℕ → List ℕ → Chans → Round
send_round c ep b q =
    if is_shut c.close_signal
    then send_fails err_closed
    else if ep == c.target4
    then into_chan c.tx4 b q
    else if ep == c.target6
    then into_chan c.tx6 b q
    else send_fails err_invalid

-- What `Send` does where nothing comes between its rounds.
pub data Sent : Type 0 where
  sent_all : Chans → Sent
  -- waiting for a place, with the buffers that are left
  stuck : List (List ℕ) → Chans → Sent
  sent_part : Err → Chans → Sent

unfoldable pub send_channel : ChannelBind → ℕ → List (List ℕ) → Chans → Sent
send_channel c ep [] q = sent_all q
send_channel c ep (b ∷ bufs) q = elim (send_round c ep b q) [
  | into ch q' ↦ send_channel c ep bufs q'
  | waits ↦ stuck (b ∷ bufs) q
  | send_fails e ↦ sent_part e q
]

-- A call of the receive function over a channel, with a first buffer of `room` bytes: what it
-- returns, and the channels. The endpoint is always that of IPv6.
pub data Received : Type 0 where
  gets : List ℕ → ℕ → Received
  gets_closed : Received

pub data Receives (c : ChannelBind) (ch : Chan) (room : ℕ) (q : Chans)
    : Received → Chans → Type 0 where
  from_chan :
      (x : List ℕ) (rest : List (List ℕ))
      → queue ch q ≡ x ∷ rest
      → Receives c ch room q (gets (take room x) c.target6) (put_queue ch rest q)
  from_signal : c.close_signal ≡ shut → Receives c ch room q gets_closed q

-- `DstToBytes`
unfoldable pub dst_to_bytes : ℕ → List ℕ
dst_to_bytes c = (c % 256) ∷ []

-- Which of the two binds acts.
pub data Side : Type 0 where
  on_left : Side
  on_right : Side

abbrev pub bind_of : Side → Pair → ChannelBind
bind_of on_left p = p.left
bind_of on_right p = p.right

abbrev pub with_bind : Side → ChannelBind → Pair → Pair
with_bind on_left c p = record p { left = c }
with_bind on_right c p = record p { right = c }

abbrev pub other : Side → Side
other on_left = on_right
other on_right = on_left

-- What a step does to the channels.
pub data Label : Type 0 where
  puts : Side → Chan → List ℕ → Label
  takes : Side → Chan → List ℕ → Label
  quiet : Label

-- One step of the two binds, of any number of callers in any order.
pub data Step (p : Pair) : Label → Pair → Type 0 where
  opens :
      (i : Side) (coin : Bool) → Step p quiet (with_bind i (open_channel coin (bind_of i p)).0 p)
  closes : (i : Side) → Step p quiet (with_bind i (close_channel (bind_of i p)) p)
  sends :
      (i : Side) (ep : ℕ) (b : List ℕ) (ch : Chan) (q : Chans)
      → send_round (bind_of i p) ep b p.chans ≡ into ch q
      → Step p (puts i ch b) (record p { chans = q })
  receives :
      (i : Side) (ch : Chan) (room : ℕ) (r : Received) (x : List ℕ) (rest : List (List ℕ))
      (q : Chans)
      → (ch ≡ (bind_of i p).rx4) ⊎ (ch ≡ (bind_of i p).rx6)
      → queue ch p.chans ≡ x ∷ rest
      → Receives (bind_of i p) ch room p.chans r q
      → r ≢ gets_closed
      → Step p (takes i ch x) (record p { chans = q })

pub data Run (p : Pair) : List Label → Pair → Type 0 where
  here : Run p [] p
  next :
      {ls : List Label} {s t : Pair} (l : Label)
      → Run p ls s
      → Step s l t
      → Run p (ls ++ (l ∷ [])) t
