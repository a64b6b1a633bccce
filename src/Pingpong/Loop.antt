-- ===== src/Pingpong/Loop.antt =====
-- The nested loops of `receiveLoop` as one pass over the packets that arrive.
use batchudp.Prelude.{
  ℕ, ◌≡◌, refl, sym, ap, ◌∙◌, Bool, true, false, Option, none, some, List, [], ◌∷◌, ◌++◌, take,
  ◌==◌, ◌||◌, if◌then◌else◌, inl, inr, Bool-cases, Option-cases,
}
use batchudp.Std.{Err}
use batchudp.Pingpong.{
  Slot, Call, gives, call_fails, handler_error, handle_slots, receive_loop, is_closed_or_canceled,
}

-- The packets in slots that are not empty and have an endpoint.
unfoldable pub packets_in : List Slot → List (List ℕ × ℕ)
packets_in [] = []
packets_in (s ∷ ss) =
    let rest = packets_in ss in
    if s.size == 0
    then rest
    else elim s.sender [ none ↦ rest | some ep ↦ (take s.size s.packet, ep) ∷ rest ]

-- All packets up to the first call that fails, and what that makes the loop return.
unfoldable pub arrivals : List Call → List (List ℕ × ℕ) × Option (Option Err)
arrivals [] = ([], none)
arrivals (call_fails e is_done ∷ calls) =
    ([], some (if is_closed_or_canceled e || is_done then none else some e))
arrivals (gives slots ∷ calls) = let (ps, end) = arrivals calls in (packets_in slots ++ ps, end)

module _ {W : Type 0} (handle : List ℕ → ℕ → W → W × Option Err) where
  -- Each packet in order, up to the first error.
  unfoldable pub handle_all : List (List ℕ × ℕ) → W → W × Option Err
  handle_all [] w = (w, none)
  handle_all (p ∷ ps) w =
      let (w', e) = handle p.0 p.1 w in elim e [ some x ↦ (w', some x) | none ↦ handle_all ps w' ]

  -- the end of the loop, behind the packets
  abbrev pub ends_with : Option (Option Err) → W × Option Err → W × Option (Option Err)
  ends_with end r = (r.0, elim r.1 [ some x ↦ some (handler_error x) | none ↦ end ])

  handle_slots-packets_in :
      (ss : List Slot) (w : W)
      → handle_slots handle ss w ≡ ends_with none (handle_all (packets_in ss) w)
  unfolding handle_slots packets_in handle_all
  handle_slots-packets_in [] w = refl
  handle_slots-packets_in (s ∷ ss) w = elim (Bool-cases (s.size == 0)) [
    | inl empty ↦ rw (empty, handle_slots, packets_in) (handle_slots-packets_in ss w)
    | inr filled ↦ elim (Option-cases s.sender) [
      | inl nobody ↦ rw (filled, nobody, handle_slots, packets_in) (handle_slots-packets_in ss w)
      | inr (ep, from) ↦ elim (Option-cases (handle (take s.size s.packet) ep w).1) [
        | inl fine ↦
            rw (filled, from, fine, handle_slots, packets_in, handle_all)
              (handle_slots-packets_in ss (handle (take s.size s.packet) ep w).0)
        | inr (e, bad) ↦ rw (filled, from, bad, handle_slots, packets_in, handle_all) refl
      ]
    ]
  ]

  -- the packets behind those of `r`
  abbrev go_on : List (List ℕ × ℕ) → W × Option Err → W × Option Err
  go_on qs r = elim r.1 [ some x ↦ (r.0, some x) | none ↦ handle_all qs r.0 ]

  handle_all-cons :
      (p : List ℕ × ℕ) (ps : List (List ℕ × ℕ)) (w : W)
      → handle_all (p ∷ ps) w ≡ go_on ps (handle p.0 p.1 w)
  unfolding handle_all
  handle_all-cons p ps w = refl

  handle_all-append :
      (ps qs : List (List ℕ × ℕ)) (w : W) → handle_all (ps ++ qs) w ≡ go_on qs (handle_all ps w)
  unfolding handle_all
  handle_all-append [] qs w = refl
  handle_all-append (p ∷ ps) qs w = elim (Option-cases (handle p.0 p.1 w).1) [
    | inl fine ↦
        let next : (xs : List (List ℕ × ℕ))
            → handle_all (p ∷ xs) w ≡ handle_all xs (handle p.0 p.1 w).0 =
          λ xs. rw (fine, handle_all) refl in
        next (ps ++ qs)
        ∙ handle_all-append ps qs (handle p.0 p.1 w).0
        ∙ ap (go_on qs) (sym (next ps))
    | inr (e, bad) ↦
        let stop : (xs : List (List ℕ × ℕ))
            → handle_all (p ∷ xs) w ≡ ((handle p.0 p.1 w).0, some e) =
          λ xs. rw (bad, handle_all) refl in
        stop (ps ++ qs) ∙ ap (go_on qs) (sym (stop ps))
  ]

  end_of :
      (a b : Bool) (e : Err)
      → (if a then none else if b then none else some e) ≡ (if a || b then none else some e)
  end_of true b e = refl
  end_of false b e = refl

  -- the loop behind a call
  abbrev loop_on : List Call → W × Option (Option Err) → W × Option (Option Err)
  loop_on calls r = elim r.1 [ some x ↦ (r.0, some x) | none ↦ receive_loop handle calls r.0 ]

  -- Whatever the calls of the receive function give: `receiveLoop` hands each packet that is not
  -- empty and has an endpoint to the handler, in order, up to the handler's first error or the
  -- first call that fails; it returns that error, or nothing where it says that the bind is closed
  -- or the work is canceled, or where a call fails and the context is done.
  pub receive_loop-arrivals :
      (calls : List Call) (w : W)
      → receive_loop handle calls w ≡ ends_with (arrivals calls).1 (handle_all (arrivals calls).0 w)
  unfolding receive_loop arrivals handle_all
  receive_loop-arrivals [] w = refl
  receive_loop-arrivals (call_fails e is_done ∷ calls) w =
      ap (λ o. (w, some o)) (end_of (is_closed_or_canceled e) is_done e)
  receive_loop-arrivals (gives slots ∷ calls) w =
      let done_slots = handle_all (packets_in slots) w in
      let ps = (arrivals calls).0 in
      let all : handle_all (packets_in slots ++ ps) w ≡ go_on ps done_slots =
        handle_all-append (packets_in slots) ps w in
      ap (loop_on calls) (handle_slots-packets_in slots w) ∙ (elim (Option-cases done_slots.1) [
        | inl fine ↦ rw fine (
            receive_loop-arrivals calls done_slots.0
            ∙ ap (ends_with (arrivals calls).1) (sym (all ∙ rw (fine, go_on) refl)))
        | inr (e, bad) ↦
            let stopped : handle_all (packets_in slots ++ ps) w ≡ (done_slots.0, some e) =
              all ∙ rw (bad, go_on) refl in
            rw bad (ap (ends_with (arrivals calls).1) (sym stopped))
      ])
