-- ===== src/Pingpong/Session.antt =====
-- A session whose binds carry packets: how it goes on, and how it ends.
use batchudp.Prelude.{
  ◌⊎◌, same_text, same_text_self, same_text-eq, ℕ, zero, suc, ◌+◌, ◌^◌, ◌≤◌, ◌<◌, ◌≡◌, ◌≢◌, refl,
  sym, ap, ◌∙◌, true, false, Option, none, some, List, [], ◌∷◌, ◌++◌, length, arith, append_assoc,
  append-nil, Bool-cases, inl, inr,
}
use batchudp.Std.{ok}
use batchudp.Pingpong.{
  Config, BindPair, SessionEnd, payload_mismatch, make_payload, ping_rounds, exchange_pings,
  run_session,
}
use batchudp.Pingpong.Payload.{Tells, make_payload-Tells}
use batchudp.Pingpong.Ending.{
  Answers, first_error, reports, finish_session-first_error, log-finish_session,
}

-- The payloads of the round trips from `round` on.
unfoldable pub pings : ℕ → ℕ → ℕ → ℕ → List (List ℕ)
pings zero round size session = []
pings (suc left) round size session =
    let rest = pings left (round + 1) size session in
    elim (make_payload size session round) [ none ↦ [] | some p ↦ p ∷ rest ]

zero-or-pos : (k : ℕ) → (k ≡ 0) ⊎ (0 < k)
zero-or-pos zero = inl refl
zero-or-pos (suc k) = inr (omega arith)

true_ne_false : true ≢ false
true_ne_false h = ground arith

same_text-ne : (a b : List ℕ) → a ≢ b → same_text a b ≡ false
same_text-ne a b ne = elim (Bool-cases (same_text a b)) [
  | inl same ↦ absurd (ne (same_text-eq a b same))
  | inr other ↦ other
]

same_text-same : (a b : List ℕ) → a ≡ b → same_text a b ≡ true
same_text-same a b e = ap (same_text a) (sym e) ∙ same_text_self a

module _ {W : Type 0} (pair : BindPair W) (ep room : ℕ) (laws : Answers pair ep room)
    (size session : ℕ) (large : 16 ≤ size) (small : size ≤ room) (id : session < 2 ^ 64) where
  open laws use {
    IsReady, log, answer, sends_it, replies, stays, logs, log-close_client, log-close_server,
  }

  -- The first `left` round trips from `round` on are answered by their own payloads.
  abbrev pub Right : ℕ → ℕ → Type 0
  Right round left =
      (i : ℕ) (p : List ℕ)
      → i < left
      → make_payload size session (round + i) ≡ some p
      → answer p ≡ p

  -- What `left` round trips from `round` on give: where every answer is right, all pings have been
  -- sent and the first error at the end is reported, if any; where the answer after `k` right ones
  -- is wrong, they end there, behind its ping.
  pub record Plays (round left : ℕ) (before : List (List ℕ)) (r : W × SessionEnd) : Type 0 where
    pub all_right :
        Right round left
        → (r.1 ≡ first_error (reports pair ep room laws))
          × (log r.0 ≡ before ++ pings left round size session)
    pub one_wrong :
        (k : ℕ) (p : List ℕ)
        → k < left
        → Right round k
        → make_payload size session (round + k) ≡ some p
        → answer p ≢ p
        → (r.1 ≡ payload_mismatch (round + k))
          × (log r.0 ≡ before ++ pings (k + 1) round size session)

  pings-none : (round : ℕ) → pings 0 round size session ≡ []
  unfolding pings
  pings-none round = refl

  some_inj : (a b : List ℕ) → ◌≡◌ {A = Option (List ℕ)} (some a) (some b) → a ≡ b
  some_inj a b e = ground arith

  payload_at :
      (i j : ℕ) (p : List ℕ)
      → i ≡ j
      → make_payload size session j ≡ some p
      → make_payload size session i ≡ some p
  payload_at i j p e h = ap (make_payload size session) e ∙ h

  later : (round left : ℕ) → Right round (left + 1) → Right (round + 1) left
  later round left all i p lt is =
      all (i + 1) p (omega arith) (payload_at (round + (i + 1)) (round + 1 + i) p (omega arith) is)

  module _ (left round : ℕ) (w : W) (few : round < 2 ^ 64) where
    this : Tells size session round (make_payload size session round)
    this = make_payload-Tells size session round large id few

    fits : length this.payload ≤ room
    fits = omega (arith, this.size_lem, small)

    -- behind the reply
    replied : W
    replied = (pair.await_reply (pair.send_ping this.payload ep w).0).0

    replied-IsReady : IsReady w → IsReady replied
    unfolding replied
    replied-IsReady ready = stays this.payload w fits ready

    log-replied : IsReady w → log replied ≡ log w ++ (this.payload ∷ [])
    unfolding replied
    log-replied ready = logs this.payload w fits ready

    pings-suc :
        (n : ℕ) → pings (suc n) round size session ≡ this.payload ∷ pings n (round + 1) size session
    unfolding pings
    pings-suc n = rw (this.result, pings) refl

    log-rest :
        IsReady w → (rest : List (List ℕ)) → (log replied ++ rest) ≡ log w ++ (this.payload ∷ rest)
    log-rest ready rest =
        ap (λ l. l ++ rest) (log-replied ready) ∙ append_assoc (log w) (this.payload ∷ []) rest

    ping_rounds-goes :
        IsReady w
        → answer this.payload ≡ this.payload
        → ping_rounds pair (suc left) round size session ep w
          ≡ ping_rounds pair left (round + 1) size session ep replied
    unfolding ping_rounds replied
    ping_rounds-goes ready same =
        rw
          (
            this.result,
            sends_it this.payload w fits ready,
            replies this.payload w fits ready,
            same_text-same (answer this.payload) this.payload same,
            ping_rounds,
          )
          refl

    ping_rounds-ends :
        IsReady w
        → answer this.payload ≢ this.payload
        → ping_rounds pair (suc left) round size session ep w ≡ (replied, payload_mismatch round)
    unfolding ping_rounds replied
    ping_rounds-ends ready wrong =
        rw
          (
            this.result,
            sends_it this.payload w fits ready,
            replies this.payload w fits ready,
            same_text-ne (answer this.payload) this.payload wrong,
            ping_rounds,
          )
          refl

    this-Right : (n : ℕ) → 0 < n → Right round n → answer this.payload ≡ this.payload
    this-Right n pos all =
        all 0 this.payload pos (payload_at (round + 0) round this.payload (omega arith) this.result)

    -- what the round trips behind a right answer give
    abbrev Further : Type 0
    Further =
        Plays (round + 1) left (log replied)
          (ping_rounds pair left (round + 1) size session ep replied)

    right-wrong :
        IsReady w
        → answer this.payload ≡ this.payload
        → Further
        → (k : ℕ) (p : List ℕ) → k < suc left
        → Right round k
        → make_payload size session (round + k) ≡ some p
        → answer p ≢ p
        → ((ping_rounds pair left (round + 1) size session ep replied).1
            ≡ payload_mismatch (round + k))
          × (log (ping_rounds pair left (round + 1) size session ep replied).0
              ≡ log w ++ pings (k + 1) round size session)
    right-wrong ready same rest zero p lt all is wrong =
        let e : this.payload ≡ p =
          some_inj this.payload p
            (sym this.result ∙ payload_at round (round + 0) p (omega arith) is) in
        absurd (wrong (ap answer (sym e) ∙ same ∙ e))
    right-wrong ready same rest (suc k) p lt all is wrong =
        let more =
          rest.one_wrong k p (omega arith) (later round k (λ i q l. all i q (omega arith)))
            (payload_at (round + 1 + k) (round + suc k) p (omega arith) is) wrong in
        let at_round : round + 1 + k ≡ round + suc k = omega arith in
        let size_lem : suc (k + 1) ≡ suc k + 1 = omega arith in
        (
          more.0 ∙ ap payload_mismatch at_round,
          more.1
              ∙ log-rest ready (pings (k + 1) (round + 1) size session)
              ∙ ap (λ l. log w ++ l) (sym (pings-suc (k + 1)))
              ∙ ap (λ n. log w ++ pings n round size session) size_lem,
        )

    right-Plays :
        IsReady w
        → answer this.payload ≡ this.payload
        → Further
        → Plays round (suc left) (log w) (ping_rounds pair (suc left) round size session ep w)
    right-Plays ready same rest = rw (ping_rounds-goes ready same) (record {
      all_right = λ all.
          let more = rest.all_right (later round left (λ i q l. all i q (omega arith))) in
          (
            more.0,
            more.1
                ∙ log-rest ready (pings left (round + 1) size session)
                ∙ ap (λ l. log w ++ l) (sym (pings-suc left)),
          );
      one_wrong = right-wrong ready same rest;
    })

    wrong-Plays :
        IsReady w
        → answer this.payload ≢ this.payload
        → Plays round (suc left) (log w) (ping_rounds pair (suc left) round size session ep w)
    wrong-Plays ready wrong = rw (ping_rounds-ends ready wrong) (record {
      all_right = λ all. absurd (wrong (this-Right (suc left) (omega arith) all));
      one_wrong = λ k p lt all is other. elim (zero-or-pos k) [
        | inr pos ↦ absurd (wrong (this-Right k pos all))
        | inl z ↦ (
          let e : round ≡ round + k = omega arith in ap payload_mismatch e,
          log-replied ready
              ∙ ap (λ l. log w ++ (this.payload ∷ l)) (sym (pings-none (round + 1)))
              ∙ ap (λ l. log w ++ l) (sym (pings-suc 0))
              ∙ (let one : suc 0 ≡ k + 1 = omega arith in
                  ap (λ n. log w ++ pings n round size session) one),
        )
      ];
    })

  ping_rounds-Plays :
      (left round : ℕ) (w : W)
      → round + left ≤ 2 ^ 64
      → IsReady w
      → Plays round left (log w) (ping_rounds pair left round size session ep w)
  ping_rounds-Plays zero round w few ready =
      unfold ping_rounds pings in
      record {
        all_right = λ all. (
          finish_session-first_error pair ep room laws w,
          log-finish_session pair ep room laws w ∙ sym (append-nil (log w)),
        );
        one_wrong = λ k p lt all is wrong. absurd (omega arith);
      }
  ping_rounds-Plays (suc left) round w few ready =
      let lt : round < 2 ^ 64 = omega (arith, few) in
      elim (Bool-cases
        (same_text (answer (this left round w lt).payload) (this left round w lt).payload)) [
          | inl same ↦ right-Plays left round w lt ready (same_text-eq _ _ same) (
              ping_rounds-Plays left (round + 1) (replied left round w lt) (omega (arith, few))
                (replied-IsReady left round w lt ready))
          | inr other ↦
              wrong-Plays left round w lt ready
                (λ e. absurd (true_ne_false (sym (same_text-same _ _ e) ∙ other)))
        ]

  -- A session of the program over two binds that open and then carry to a peer, with payloads of at
  -- least 16 bytes that fit into the buffers, a session number below 2 ^ 64 and at most 2 ^ 64 round
  -- trips. Where the peer answers every payload with the same bytes, the client sends the payload of
  -- every round trip once, in order, and the session ends with the first error of the two calls of
  -- `Close`, in which `net.ErrClosed` does not count, and the two of `Wait`, client before server, or
  -- else without one. Where the payload of some round trip is the first that is answered otherwise,
  -- the session ends with a mismatch in that round trip, and the client has sent the payloads up to
  -- that one.
  pub run_session-Plays :
      (cfg : Config) (port client : ℕ) (w : W)
      → cfg.payload_size ≡ size
      → cfg.round_trips ≤ 2 ^ 64
      → (pair.new_pair w).1 ≡ none
      → (pair.open_server (pair.new_pair w).0).1 ≡ ok port
      → (pair.open_client (pair.open_server (pair.new_pair w).0).0).1 ≡ ok client
      → pair.parse_endpoint port (pair.open_client (pair.open_server (pair.new_pair w).0).0).0
        ≡ ok ep
      → IsReady (pair.open_client (pair.open_server (pair.new_pair w).0).0).0
      → Plays 0 cfg.round_trips
          (log (pair.open_client (pair.open_server (pair.new_pair w).0).0).0)
          (run_session pair cfg session w)
  unfolding run_session exchange_pings
  run_session-Plays cfg port client w sized few made served opened parsed ready =
      let w3 = (pair.open_client (pair.open_server (pair.new_pair w).0).0).0 in
      let r = ping_rounds pair cfg.round_trips 0 cfg.payload_size session ep w3 in
      let ends : run_session pair cfg session w
          ≡ ((pair.close_client (pair.close_server r.0).0).0, r.1) =
        rw (made, served, opened, parsed, run_session, exchange_pings) refl in
      let quiet : log (pair.close_client (pair.close_server r.0).0).0 ≡ log r.0 =
        log-close_client (pair.close_server r.0).0 ∙ log-close_server r.0 in
      let played : Plays 0 cfg.round_trips (log w3) r =
        rw sized (ping_rounds-Plays cfg.round_trips 0 w3 (omega (arith, few)) ready) in
      rw ends (record {
        all_right = λ all. let x = played.all_right all in (x.0, quiet ∙ x.1);
        one_wrong = λ k p lt all is wrong.
            let x = played.one_wrong k p lt all is wrong in (x.0, quiet ∙ x.1);
      })
