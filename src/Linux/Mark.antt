-- ===== src/Linux/Mark.antt =====
-- What `SetMark` leaves behind.
use batchudp.Prelude.{
  ℕ, ◌≡◌, ◌≢◌, sym, ◌∙◌, true, false, Option, none, some, arith, Option-cases, inl, inr,
}
use batchudp.Std.{Err, Conn, Bind}
use batchudp.Linux.{so_mark, Sockopts, mark_socket, mark_open, set_mark}

-- The mark of every socket; setting one sets no other.
pub record MarkLaws {W : Type 0} (sys : Sockopts W) : Type 0 where
  pub mark_of : W → Conn → ℕ
  pub set_ok :
      (c : Conn) (v : ℕ) (w : W)
      → (sys.set_int c so_mark v w).1 ≡ none
      → mark_of (sys.set_int c so_mark v w).0 c ≡ v
  pub set_other :
      (c d : Conn) (v : ℕ) (w : W) → c ≢ d → mark_of (sys.set_int c so_mark v w).0 d ≡ mark_of w d

module _ {W : Type 0} (sys : Sockopts W) (laws : MarkLaws sys) where
  open laws use {mark_of, set_ok, set_other}

  -- The socket has the mark, or it is one on which the system has no such option.
  pub data Marked (c : Conn) (mark : ℕ) (before after : W) : Type 0 where
    has_mark : mark_of after c ≡ mark → Marked c mark before after
    no_access :
        (e : Err)
        → sys.sockopt_control c before ≡ some e
        → sys.is_unsupported e ≡ true
        → Marked c mark before after
    no_option :
        (e : Err)
        → (sys.set_int c so_mark mark before).1 ≡ some e
        → sys.is_unsupported e ≡ true
        → Marked c mark before after

  mark_socket-Marked :
      (c : Conn) (mark : ℕ) (w : W)
      → (mark_socket sys c mark w).1 ≡ none
      → Marked c mark w (mark_socket sys c mark w).0
  unfolding mark_socket
  mark_socket-Marked c mark w h = elim (Option-cases (sys.sockopt_control c w)) [
    | inr (e, barred) ↦ no_access e barred (ground arith)
    | inl called ↦ elim (Option-cases (sys.set_int c so_mark mark w).1) [
      | inl done ↦ has_mark (ground (arith, set_ok c mark w done))
      | inr (e, bad) ↦ no_option e bad (ground arith)
    ]
  ]

  mark_socket-other :
      (c d : Conn) (mark : ℕ) (w : W) → c ≢ d → mark_of (mark_socket sys c mark w).0 d ≡ mark_of w d
  unfolding mark_socket
  mark_socket-other c d mark w ne = ground (arith, set_other c d mark w ne)

  mark_socket-error :
      (c : Conn) (mark : ℕ) (w : W) (e : Err)
      → (mark_socket sys c mark w).1 ≡ some e
      → sys.is_unsupported e ≡ false
  unfolding mark_socket
  mark_socket-error c mark w e h = ground arith

  Marked-kept :
      (c : Conn) (mark : ℕ) (before w1 w2 : W)
      → mark_of w2 c ≡ mark_of w1 c
      → Marked c mark before w1
      → Marked c mark before w2
  Marked-kept c mark before w1 w2 same (has_mark h) = has_mark (same ∙ h)
  Marked-kept c mark before w1 w2 same (no_access e barred h) = no_access e barred h
  Marked-kept c mark before w1 w2 same (no_option e bad h) = no_option e bad h

  abbrev pub IsMarked : Option Conn → ℕ → W → W → Type 0
  IsMarked none mark before after = Unit
  IsMarked (some c) mark before after = Marked c mark before after

  -- The two sockets of the bind are not the same.
  abbrev pub IsApart : Option Conn → Option Conn → Type 0
  IsApart (some c) (some d) = c ≢ d
  IsApart _ _ = Unit

  abbrev pub IsUntouched : Option Conn → W → W → Type 0
  IsUntouched none before after = Unit
  IsUntouched (some d) before after = mark_of after d ≡ mark_of before d

  -- How `SetMark` ends, for the two sockets.
  pub data Marks (ipv4 ipv6 : Option Conn) (mark : ℕ) (w : W) : W × Option Err → Type 0 where
    marks_all :
        (w1 w2 : W)
        → IsMarked ipv4 mark w w2
        → IsMarked ipv6 mark w1 w2
        → Marks ipv4 ipv6 mark w (w2, none)
    fails_first :
        (w1 : W) (e : Err)
        → sys.is_unsupported e ≡ false
        → IsUntouched ipv6 w w1
        → Marks ipv4 ipv6 mark w (w1, some e)
    fails_second :
        (w2 : W) (e : Err)
        → sys.is_unsupported e ≡ false
        → IsMarked ipv4 mark w w2
        → Marks ipv4 ipv6 mark w (w2, some e)

  mark_second :
      (ipv4 ipv6 : Option Conn) (mark : ℕ) (w w1 : W)
      → IsApart ipv4 ipv6
      → IsMarked ipv4 mark w w1
      → Marks ipv4 ipv6 mark w (mark_open sys ipv6 mark w1)
  mark_second ipv4 none mark w w1 apart first = marks_all w1 w1 first tt
  mark_second ipv4 (some d) mark w w1 apart first =
      let kept : IsMarked ipv4 mark w (mark_socket sys d mark w1).0 = keep ipv4 apart first in
      elim (Option-cases (mark_socket sys d mark w1).1) [
        | inl fine ↦ rw fine (marks_all w1 _ kept (mark_socket-Marked d mark w1 fine))
        | inr (e, bad) ↦ rw bad (fails_second _ e (mark_socket-error d mark w1 e bad) kept)
      ]
    where
      keep :
          (i : Option Conn)
          → IsApart i (some d)
          → IsMarked i mark w w1
          → IsMarked i mark w (mark_socket sys d mark w1).0
      keep none a m = tt
      keep (some c) a m =
          Marked-kept c mark w w1 _ (mark_socket-other d c mark w1 (λ h. a (sym h))) m

  mark_socket-IsUntouched :
      (c : Conn) (ipv6 : Option Conn) (mark : ℕ) (w : W)
      → IsApart (some c) ipv6
      → IsUntouched ipv6 w (mark_socket sys c mark w).0
  mark_socket-IsUntouched c none mark w apart = tt
  mark_socket-IsUntouched c (some d) mark w apart = mark_socket-other c d mark w apart

  mark_both :
      (ipv4 ipv6 : Option Conn) (mark : ℕ) (w : W)
      → IsApart ipv4 ipv6
      → Marks ipv4 ipv6 mark w (elim (mark_open sys ipv4 mark w).1 [
        | some x ↦ ((mark_open sys ipv4 mark w).0, some x)
        | none ↦ mark_open sys ipv6 mark (mark_open sys ipv4 mark w).0
      ])
  mark_both none ipv6 mark w apart = mark_second none ipv6 mark w w apart tt
  mark_both (some c) ipv6 mark w apart = elim (Option-cases (mark_socket sys c mark w).1) [
    | inl fine ↦ rw fine (
        mark_second (some c) ipv6 mark w (mark_socket sys c mark w).0 apart
          (mark_socket-Marked c mark w fine))
    | inr (e, bad) ↦ rw bad (
        fails_first _ e (mark_socket-error c mark w e bad)
          (mark_socket-IsUntouched c ipv6 mark w apart))
  ]

  -- Where the system has such an option and the two sockets of the bind are not the same: with no
  -- error, `SetMark` has given every open socket the mark, save where the system says that it does
  -- not support that; an error of the IPv4 socket leaves the mark of the IPv6 socket as it was, and
  -- an error of the IPv6 socket comes behind the marking of the other.
  pub set_mark-Marks :
      (s : Bind) (mark : ℕ) (w : W)
      → IsApart s.ipv4 s.ipv6
      → Marks s.ipv4 s.ipv6 mark w (set_mark sys true s mark w)
  unfolding set_mark
  set_mark-Marks s mark w apart = mark_both s.ipv4 s.ipv6 mark w apart
