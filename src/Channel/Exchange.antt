-- ===== src/Channel/Exchange.antt =====
-- A ping and its reply over two open binds.
use batchudp.Prelude.{◌⊎◌, ℕ, ◌≡◌, Bool, true, false, List, [], ◌∷◌}
use batchudp.Channel.{
  Chan, brx4, brx6, Chans, ChannelBind, into, send_round, sent_all, send_channel, gets, Receives,
}

-- The channel that a packet to the port takes, for the coin of `Open`.
abbrev pub ping_chan : Bool → Chan
ping_chan true = brx4
ping_chan false = brx6

-- One packet goes from `c` to `d` over `ch`, one of the two channels that `d` receives from, and
-- leaves the channels as they were.
pub record Hop (c d : ChannelBind) (port room : ℕ) (x : List ℕ) (ch : Chan) (q : Chans)
    : Type 0 where
  pub own : (ch ≡ d.rx4) ⊎ (ch ≡ d.rx6)
  pub on_the_way : Chans
  pub round : send_round c port x q ≡ into ch on_the_way
  pub sent : send_channel c port (x ∷ []) q ≡ sent_all on_the_way
  pub back : Chans
  pub got : Receives d ch room on_the_way (gets x d.target6) back
  pub same : back ≡ q
