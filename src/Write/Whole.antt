-- ===== src/Write/Whole.antt =====
-- All of the messages are written, or a first part of them and an error is returned.
use batchudp.Prelude.{
  ℕ, zero, suc, ◌+◌, ◌≤◌, ◌<◌, ◌≡◌, refl, sym, ap, subst, ◌∙◌, false, List, [], ◌∷◌, ◌++◌, Option,
  some, none, length, take, drop, ltb, ◌==◌, arith, inl, inr, Bool-cases, Option-cases,
  append_assoc, append-nil, length-drop, take_add, take-all, take-append-drop, ==→eq,
}
use batchudp.Std.{Err, ok, err, Conn}
use batchudp.Std.Open.Leaks.{Outcome-cases}
use batchudp.Slice.{Msg}
use batchudp.Write.{Writer, Written, done, failed, write_loop, write_all, write_each, send_messages}

-- What the writers document: a batch write that succeeds writes at least one message, where there
-- is one, and at most all, from the first on; one that fails writes none. `sent` is what has
-- been written.
pub record Sends {W : Type 0} (k : Writer W) : Type 0 where
  pub sent : W → List Msg
  pub batch_ok :
      (c : Conn) (msgs : List Msg) (w : W) (n : ℕ)
      → (k.write_batch c msgs w).1 ≡ ok n
      → (n ≤ length msgs)
        × (0 < length msgs → 0 < n)
        × (sent (k.write_batch c msgs w).0 ≡ sent w ++ take n msgs)
  pub batch_err :
      (c : Conn) (msgs : List Msg) (w : W) (e : Err)
      → (k.write_batch c msgs w).1 ≡ err e
      → sent (k.write_batch c msgs w).0 ≡ sent w
  pub msg_ok :
      (c : Conn) (m : Msg) (w : W)
      → (k.write_msg c m w).1 ≡ none
      → sent (k.write_msg c m w).0 ≡ sent w ++ (m ∷ [])
  pub msg_err :
      (c : Conn) (m : Msg) (w : W) (e : Err)
      → (k.write_msg c m w).1 ≡ some e
      → sent (k.write_msg c m w).0 ≡ sent w

-- The end of a write: everything, or an error behind a first part.
pub data Ends {W : Type 0} (sent : W → List Msg) (before msgs : List Msg) (r : W × Written)
    : Type 0 where
  whole : r.1 ≡ done → sent r.0 ≡ before ++ msgs → Ends sent before msgs r
  part :
      (e : Err) (n : ℕ)
      → r.1 ≡ failed e
      → sent r.0 ≡ before ++ take n msgs
      → Ends sent before msgs r

module _ {W : Type 0} (sent : W → List Msg) where
  -- behind a first part
  Ends-behind :
      (before msgs : List Msg) (n : ℕ) (r : W × Written)
      → Ends sent (before ++ take n msgs) (drop n msgs) r
      → Ends sent before msgs r
  Ends-behind before msgs n r (whole d s) = whole d (
      s
      ∙ append_assoc before (take n msgs) (drop n msgs)
      ∙ ap (◌++◌ before) (take-append-drop n msgs))
  Ends-behind before msgs n r (part e m d s) = part e (n + m) d (
      s
      ∙ append_assoc before (take n msgs) (take m (drop n msgs))
      ∙ ap (◌++◌ before) (take_add n m msgs))

module _ {W : Type 0} (k : Writer W) (laws : Sends k) where
  open laws use {sent}

  write_loop-Ends :
      (fuel : ℕ) (c : Conn) (msgs : List Msg) (w : W)
      → length msgs < fuel
      → Ends sent (sent w) msgs (write_loop k fuel c msgs w)
  unfolding write_loop
  write_loop-Ends zero c msgs w enough = absurd (omega arith)
  write_loop-Ends (suc fuel) c msgs w enough =
      let w' = (k.write_batch c msgs w).0 in
      elim (Outcome-cases (k.write_batch c msgs w).1) [
        | inr (e, is) ↦
            rw (is, write_loop)
              (part e 0 refl (laws.batch_err c msgs w e is ∙ sym (append-nil (sent w))))
        | inl (n, is) ↦
            let (le, some_sent, grown) = laws.batch_ok c msgs w n is in
            elim (Bool-cases (n == length msgs)) [
              | inl all ↦
                  rw (is, write_loop)
                    (rw all (
                      whole refl (
                        grown
                        ∙ ap (◌++◌ (sent w)) (take-all n msgs (omega (arith, ==→eq _ _ all))))))
              | inr more ↦
                  let inside : ltb (length msgs) n ≡ false = ground arith in
                  let short : n < length msgs = ground arith in
                  rw (is, write_loop)
                    (rw (more, inside)
                      (Ends-behind sent (sent w) msgs n (write_loop k fuel c (drop n msgs) w') (
                        subst
                          (λ b. Ends sent b (drop n msgs) (write_loop k fuel c (drop n msgs) w'))
                          grown
                          (write_loop-Ends fuel c (drop n msgs) w'
                            (omega (arith, length-drop n msgs, some_sent (omega arith)))))))
            ]
      ]

  write_each-Ends :
      (c : Conn) (msgs : List Msg) (w : W) → Ends sent (sent w) msgs (write_each k c msgs w)
  unfolding write_each
  write_each-Ends c [] w = whole refl (sym (append-nil (sent w)))
  write_each-Ends c (m ∷ ms) w = elim (Option-cases (k.write_msg c m w).1) [
    | inr (e, is) ↦
        rw (is, write_each) (part e 0 refl (laws.msg_err c m w e is ∙ sym (append-nil (sent w))))
    | inl fine ↦
        rw (fine, write_each)
          (Ends-behind sent (sent w) (m ∷ ms) 1 (write_each k c ms (k.write_msg c m w).0) (
            subst (λ b. Ends sent b ms (write_each k c ms (k.write_msg c m w).0))
              (laws.msg_ok c m w fine) (write_each-Ends c ms (k.write_msg c m w).0)))
  ]

  -- `send` always ends, within its fuel and its slice bounds: either all messages have been
  -- written, once each and in order, or a first part of them, and the error is returned.
  pub send_messages-Ends :
      (c : Conn) (pc : Option Conn) (msgs : List Msg) (w : W)
      → Ends sent (sent w) msgs (send_messages k c pc msgs w)
  unfolding send_messages write_all
  send_messages-Ends c none msgs w = write_each-Ends c msgs w
  send_messages-Ends c (some pc) msgs w =
      write_loop-Ends (suc (length msgs)) pc msgs w (omega arith)
