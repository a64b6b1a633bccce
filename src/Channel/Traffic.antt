-- ===== src/Channel/Traffic.antt =====
-- What goes through the channels, in every order of steps.
use batchudp.Prelude.{
  ℕ, ◌≡◌, refl, sym, ap, ◌∙◌, Bool, true, false, List, [], ◌∷◌, ◌++◌, ◌==◌, if◌then◌else◌, All,
  All-append, ◌⊎◌, inl, inr, Bool-cases, append-nil, append_assoc, arith,
}
use batchudp.Channel.{
  Chan, arx4, brx4, arx6, brx6, Chans, queue, put_queue, Signal, no_signal, made, ChannelBind, Pair,
  new_channel_binds, left_bind, right_bind, open_channel, close_channel, into, into_chan, is_shut,
  send_round, from_chan, from_signal, Side, on_left, on_right, bind_of, with_bind, Label, puts,
  takes, quiet, Step, opens, closes, sends, receives, Run, here, next,
}

abbrev pub same_chan : Chan → Chan → Bool
same_chan arx4 arx4 = true
same_chan brx4 brx4 = true
same_chan arx6 arx6 = true
same_chan brx6 brx6 = true
same_chan _ _ = false

-- What has been put into a channel, and what has been taken out of it.
unfoldable pub puts_of : Chan → List Label → List (List ℕ)
puts_of ch [] = []
puts_of ch (puts i c b ∷ ls) = if same_chan ch c then b ∷ puts_of ch ls else puts_of ch ls
puts_of ch (takes i c b ∷ ls) = puts_of ch ls
puts_of ch (quiet ∷ ls) = puts_of ch ls

unfoldable pub takes_of : Chan → List Label → List (List ℕ)
takes_of ch [] = []
takes_of ch (takes i c b ∷ ls) = if same_chan ch c then b ∷ takes_of ch ls else takes_of ch ls
takes_of ch (puts i c b ∷ ls) = takes_of ch ls
takes_of ch (quiet ∷ ls) = takes_of ch ls

queue-put_queue :
    (c d : Chan) (x : List (List ℕ)) (q : Chans)
    → queue c (put_queue d x q) ≡ (if same_chan c d then x else queue c q)
queue-put_queue arx4 arx4 x q = refl
queue-put_queue arx4 brx4 x q = refl
queue-put_queue arx4 arx6 x q = refl
queue-put_queue arx4 brx6 x q = refl
queue-put_queue brx4 arx4 x q = refl
queue-put_queue brx4 brx4 x q = refl
queue-put_queue brx4 arx6 x q = refl
queue-put_queue brx4 brx6 x q = refl
queue-put_queue arx6 arx4 x q = refl
queue-put_queue arx6 brx4 x q = refl
queue-put_queue arx6 arx6 x q = refl
queue-put_queue arx6 brx6 x q = refl
queue-put_queue brx6 arx4 x q = refl
queue-put_queue brx6 brx4 x q = refl
queue-put_queue brx6 arx6 x q = refl
queue-put_queue brx6 brx6 x q = refl

queue-same : (c d : Chan) (q : Chans) → same_chan c d ≡ true → queue d q ≡ queue c q
queue-same arx4 arx4 q e = refl
queue-same brx4 brx4 q e = refl
queue-same arx6 arx6 q e = refl
queue-same brx6 brx6 q e = refl
queue-same _ _ q e = cc

-- A round of `Send` that puts its packet in, puts it behind what is there.
pub record PutIn (c : ChannelBind) (b : List ℕ) (q : Chans) (ch : Chan) (q' : Chans) : Type 0 where
  pub own : (ch ≡ c.tx4) ⊎ (ch ≡ c.tx6)
  pub behind : q' ≡ put_queue ch (queue ch q ++ (b ∷ [])) q

into_chan-into :
    (t ch : Chan) (b : List ℕ) (q q' : Chans)
    → into_chan t b q ≡ into ch q'
    → (t ≡ ch) × (put_queue t (queue t q ++ (b ∷ [])) q ≡ q')
into_chan-into t ch b q q' e = (ground arith, ground arith)

send_round-PutIn :
    (c : ChannelBind) (ep : ℕ) (b : List ℕ) (q : Chans) (ch : Chan) (q' : Chans)
    → send_round c ep b q ≡ into ch q'
    → PutIn c b q ch q'
unfolding send_round
send_round-PutIn c ep b q ch q' e = elim (Bool-cases (is_shut c.close_signal)) [
  | inl dead ↦ absurd (ground arith)
  | inr live ↦ elim (Bool-cases (ep == c.target4)) [
    | inl four ↦
        let r : (c.tx4 ≡ ch) × (put_queue c.tx4 (queue c.tx4 q ++ (b ∷ [])) q ≡ q') =
          into_chan-into c.tx4 ch b q q' (rw (live, four, send_round) at e) in
        record {
          own = inl (sym r.0);
          behind = sym r.1 ∙ ap (λ k. put_queue k (queue k q ++ (b ∷ [])) q) r.0;
        }
    | inr not_four ↦ elim (Bool-cases (ep == c.target6)) [
      | inr neither ↦ absurd (ground arith)
      | inl six ↦
          let r : (c.tx6 ≡ ch) × (put_queue c.tx6 (queue c.tx6 q ++ (b ∷ [])) q ≡ q') =
            into_chan-into c.tx6 ch b q q' (rw (live, not_four, six, send_round) at e) in
          record {
            own = inr (sym r.0);
            behind = sym r.1 ∙ ap (λ k. put_queue k (queue k q ++ (b ∷ [])) q) r.0;
          }
    ]
  ]
]

puts_of-snoc :
    (ch : Chan) (ls : List Label) (l : Label)
    → puts_of ch (ls ++ (l ∷ [])) ≡ puts_of ch ls ++ puts_of ch (l ∷ [])
unfolding puts_of
puts_of-snoc ch [] l = refl
puts_of-snoc ch (puts i c b ∷ ls) l = ground (arith, puts_of-snoc ch ls l)
puts_of-snoc ch (takes i c b ∷ ls) l = puts_of-snoc ch ls l
puts_of-snoc ch (quiet ∷ ls) l = puts_of-snoc ch ls l

takes_of-snoc :
    (ch : Chan) (ls : List Label) (l : Label)
    → takes_of ch (ls ++ (l ∷ [])) ≡ takes_of ch ls ++ takes_of ch (l ∷ [])
unfolding takes_of
takes_of-snoc ch [] l = refl
takes_of-snoc ch (takes i c b ∷ ls) l = ground (arith, takes_of-snoc ch ls l)
takes_of-snoc ch (puts i c b ∷ ls) l = takes_of-snoc ch ls l
takes_of-snoc ch (quiet ∷ ls) l = takes_of-snoc ch ls l

queue-with_bind :
    (ch : Chan) (i : Side) (c : ChannelBind) (p : Pair)
    → queue ch (with_bind i c p).chans ≡ queue ch p.chans
queue-with_bind ch on_left c p = refl
queue-with_bind ch on_right c p = refl

-- One step keeps what was in a channel and what is put in, less what is taken out.
Step-queue :
    (ch : Chan) (p t : Pair) (l : Label)
    → Step p l t
    → queue ch p.chans ++ puts_of ch (l ∷ []) ≡ takes_of ch (l ∷ []) ++ queue ch t.chans
unfolding puts_of takes_of
Step-queue ch p _ _ (opens i coin) =
    append-nil (queue ch p.chans) ∙ sym (queue-with_bind ch i (open_channel coin (bind_of i p)).0 p)
Step-queue ch p _ _ (closes i) =
    append-nil (queue ch p.chans) ∙ sym (queue-with_bind ch i (close_channel (bind_of i p)) p)
Step-queue ch p _ _ (sends i ep b c q e) =
    let r : PutIn (bind_of i p) b p.chans c q = send_round-PutIn (bind_of i p) ep b p.chans c q e in
    elim (Bool-cases (same_chan ch c)) [
      | inl same ↦ rw same (
          ap (λ k. k ++ (b ∷ [])) (sym (queue-same ch c p.chans same))
          ∙ sym (
              ap (queue ch) r.behind
              ∙ queue-put_queue ch c (queue c p.chans ++ (b ∷ [])) p.chans
              ∙ ap (λ t. if t then queue c p.chans ++ (b ∷ []) else queue ch p.chans) same))
      | inr not_same ↦ rw not_same (
          append-nil (queue ch p.chans)
          ∙ sym (
              ap (queue ch) r.behind
              ∙ queue-put_queue ch c (queue c p.chans ++ (b ∷ [])) p.chans
              ∙ ap (λ t. if t then queue c p.chans ++ (b ∷ []) else queue ch p.chans) not_same))
    ]
Step-queue ch p _ _ (receives i c room r x rest q own there (from_signal h) open_still) =
    absurd (open_still refl)
Step-queue ch p _ _ (receives i c room r x rest q own there (from_chan y more found) open_still) =
    let same_head : ◌≡◌ {A = List (List ℕ)} (x ∷ rest) (y ∷ more) = sym there ∙ found in
    let tail : rest ≡ more = cc in
    let moved : queue ch (put_queue c more p.chans)
        ≡ (if same_chan ch c then more else queue ch p.chans) =
      queue-put_queue ch c more p.chans in
    elim (Bool-cases (same_chan ch c)) [
      | inl same ↦ rw same (
          append-nil (queue ch p.chans)
          ∙ sym (queue-same ch c p.chans same)
          ∙ there
          ∙ ap (◌∷◌ x) (tail ∙ sym (moved ∙ ap (λ t. if t then more else queue ch p.chans) same)))
      | inr not_same ↦ rw not_same (
          append-nil (queue ch p.chans)
          ∙ sym (moved ∙ ap (λ t. if t then more else queue ch p.chans) not_same))
    ]

-- In every run, a channel loses nothing and keeps the order: what was in it, and then what has been
-- put in, is what has been taken out, and then what is in it now.
Run-queue :
    (ch : Chan) (p t : Pair) (ls : List Label)
    → Run p ls t
    → queue ch p.chans ++ puts_of ch ls ≡ takes_of ch ls ++ queue ch t.chans
Run-queue ch p _ _ here = unfold puts_of takes_of in append-nil (queue ch p.chans)
Run-queue ch p t _ (next {ls} {s} l r st) =
    ap (λ x. queue ch p.chans ++ x) (puts_of-snoc ch ls l)
    ∙ sym (append_assoc (queue ch p.chans) (puts_of ch ls) (puts_of ch (l ∷ [])))
    ∙ ap (λ x. x ++ puts_of ch (l ∷ [])) (Run-queue ch p s ls r)
    ∙ append_assoc (takes_of ch ls) (queue ch s.chans) (puts_of ch (l ∷ []))
    ∙ ap (λ x. takes_of ch ls ++ x) (Step-queue ch s t l st)
    ∙ sym (append_assoc (takes_of ch ls) (takes_of ch (l ∷ [])) (queue ch t.chans))
    ∙ ap (λ x. x ++ queue ch t.chans) (sym (takes_of-snoc ch ls l))

-- The channels and endpoints of the two binds stay those of `NewChannelBinds`.
abbrev pub IsWired : Pair → Type 0
IsWired p = ((s : Signal) × (p.left ≡ left_bind s)) × ((s : Signal) × (p.right ≡ right_bind s))

Step-IsWired : (p t : Pair) (l : Label) → Step p l t → IsWired p → IsWired t
unfolding open_channel close_channel
Step-IsWired p _ _ (opens on_left coin) (a, b) =
    ((made, ap (λ (c : ChannelBind). record c { close_signal = made }) a.1), b)
Step-IsWired p _ _ (opens on_right coin) (a, b) =
    (a, (made, ap (λ (c : ChannelBind). record c { close_signal = made }) b.1))
Step-IsWired p _ _ (closes on_left) (a, b) = ((_, ap close_channel a.1), b)
Step-IsWired p _ _ (closes on_right) (a, b) = (a, (_, ap close_channel b.1))
Step-IsWired p _ _ (sends i ep x c q e) w = w
Step-IsWired p _ _ (receives i c room r x rest q own there got live) w = w

-- The channels that a side puts into, and those that it takes from.
abbrev pub IsOwn : Label → Type 0
IsOwn (puts on_left c b) = (c ≡ brx4) ⊎ (c ≡ brx6)
IsOwn (puts on_right c b) = (c ≡ arx4) ⊎ (c ≡ arx6)
IsOwn (takes on_left c b) = (c ≡ arx4) ⊎ (c ≡ arx6)
IsOwn (takes on_right c b) = (c ≡ brx4) ⊎ (c ≡ brx6)
IsOwn quiet = Unit

Step-IsOwn : (p t : Pair) (l : Label) → Step p l t → IsWired p → IsOwn l
Step-IsOwn p _ _ (opens i coin) w = tt
Step-IsOwn p _ _ (closes i) w = tt
Step-IsOwn p _ _ (sends on_left ep b c q e) w =
    let own : (c ≡ p.left.tx4) ⊎ (c ≡ p.left.tx6) =
      (send_round-PutIn p.left ep b p.chans c q e).own in
    ground (arith, ap (λ (x : ChannelBind). x.tx4) w.0.1, ap (λ (x : ChannelBind). x.tx6) w.0.1)
Step-IsOwn p _ _ (sends on_right ep b c q e) w =
    let own : (c ≡ p.right.tx4) ⊎ (c ≡ p.right.tx6) =
      (send_round-PutIn p.right ep b p.chans c q e).own in
    ground (arith, ap (λ (x : ChannelBind). x.tx4) w.1.1, ap (λ (x : ChannelBind). x.tx6) w.1.1)
Step-IsOwn p _ _ (receives on_left c room r x rest q own there got live) w =
    ground (arith, ap (λ (x : ChannelBind). x.rx4) w.0.1, ap (λ (x : ChannelBind). x.rx6) w.0.1)
Step-IsOwn p _ _ (receives on_right c room r x rest q own there got live) w =
    ground (arith, ap (λ (x : ChannelBind). x.rx4) w.1.1, ap (λ (x : ChannelBind). x.rx6) w.1.1)

Run-both : (p t : Pair) (ls : List Label) → Run p ls t → IsWired p → IsWired t × All IsOwn ls
Run-both p _ _ here w = (w, tt)
Run-both p t _ (next {ls} {s} l r st) w =
    let (ws, owns) = Run-both p s ls r w in
    (Step-IsWired s t l st ws, All-append IsOwn ls (l ∷ []) owns (Step-IsOwn s t l st ws, tt))

pub new-IsWired : IsWired new_channel_binds
unfolding new_channel_binds
new-IsWired = ((no_signal, refl), (no_signal, refl))

queue-new : (ch : Chan) → queue ch new_channel_binds.chans ≡ []
unfolding new_channel_binds
queue-new arx4 = refl
queue-new brx4 = refl
queue-new arx6 = refl
queue-new brx6 = refl

-- What an exchange between the two binds keeps.
pub record Faithful (ls : List Label) (t : Pair) : Type 0 where
  pub in_order : (ch : Chan) → puts_of ch ls ≡ takes_of ch ls ++ queue ch t.chans
  pub crosses : All IsOwn ls
  pub wired : IsWired t

-- In every run of two new binds, whatever their callers do and in whatever order: what has been
-- taken out of a channel is what was put into it, in order, with nothing lost but what is still
-- in it; and each side takes only from the channels that the other side puts into.
pub Run-Faithful : (ls : List Label) (t : Pair) → Run new_channel_binds ls t → Faithful ls t
Run-Faithful ls t r = record {
  in_order = λ ch.
      sym (ap (λ x. x ++ puts_of ch ls) (queue-new ch)) ∙ Run-queue ch new_channel_binds t ls r;
  crosses = (Run-both new_channel_binds t ls r new-IsWired).1;
  wired = (Run-both new_channel_binds t ls r new-IsWired).0;
}
