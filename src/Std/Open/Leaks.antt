-- ===== src/Std/Open/Leaks.antt =====
-- `Open` keeps no socket that the bind does not hold.
use batchudp.Prelude.{
  ℕ, zero, suc, ◌≡◌, refl, Bool, true, false, Option, none, some, List, [], ◌∷◌, ◌==◌,
  if◌then◌else◌, arith, All, Bool-cases, inl, inr, eq→==, ◌⊎◌,
}
use batchudp.Std.{Err, Outcome, ok, err, Family, Conn, Net, Options, Bind}
use batchudp.Std.Open.{
  ControlFn, run_control_fns, configure_socket, listen_net, Pass, again, fails, opens,
  second_failed, listen_second, listen_only_second, pass, passes, setup4, setup6, setup_both,
  Opened, finish_open, is_open, open_bind, family_order,
}

pub Outcome-cases :
    {A : Type 0} (r : Outcome A) → ((a : A) × (r ≡ ok a)) ⊎ ((e : Err) × (r ≡ err e))
Outcome-cases (ok a) = inl (a, refl)
Outcome-cases (err e) = inr (e, refl)

-- The first occurrence of a handle goes.
unfoldable pub remove : Conn → List Conn → List Conn
remove c [] = []
remove c (x ∷ xs) = if x == c then xs else x ∷ remove c xs

pub remove_head : (c : Conn) (xs : List Conn) → remove c (c ∷ xs) ≡ xs
unfolding remove
remove_head c xs = rw (eq→== c c refl)

abbrev pub held : Outcome Conn → List Conn → List Conn
held (ok c) o = c ∷ o
held (err e) o = o

abbrev held_port : Outcome (Conn × ℕ) → List Conn → List Conn
held_port (ok (c, p)) o = c ∷ o
held_port (err e) o = o

abbrev pub also : Option Conn → List Conn → List Conn
also none o = o
also (some c) o = c ∷ o

abbrev held_pass : Pass → List Conn → List Conn
held_pass again o = o
held_pass (fails e) o = o
held_pass (opens a b p n) o = also b (also a o)

-- The sockets of the process: a successful listen opens one, a close closes it, and nothing else
-- opens or closes any.
pub record Sockets {W : Type 0} (net : Net W) (fns : List (ControlFn net)) : Type 0 where
  pub sockets : W → List Conn
  pub sockets-listen :
      (f : Family) (port : ℕ) (w : W)
      → sockets (net.listen_udp f port w).0 ≡ held (net.listen_udp f port w).1 (sockets w)
  pub sockets-close : (c : Conn) (w : W) → sockets (net.close c w).0 ≡ remove c (sockets w)
  pub sockets-control :
      All
        (λ (fn : ControlFn net). (f : Family) (c : Conn) (w : W) → sockets (fn f c w).0 ≡ sockets w)
        fns

module _ {W : Type 0} (net : Net W) (all_fns : List (ControlFn net)) (k : Sockets net all_fns) where
  open k use {sockets, sockets-listen, sockets-close, sockets-control}

  sockets-run :
      (fns : List (ControlFn net)) (f : Family) (c : Conn) (w : W)
      → All
          (λ (fn : ControlFn net).
            (f : Family) (c : Conn) (w : W) → sockets (fn f c w).0 ≡ sockets w)
          fns
      → sockets (run_control_fns net fns f c w).0 ≡ sockets w
  unfolding run_control_fns
  sockets-run [] f c w h = refl
  sockets-run (fn ∷ fns) f c w h = ground (arith, h.0 f c w, sockets-run fns f c (fn f c w).0 h.1)

  sockets-configure :
      (f : Family) (c : Conn) (w : W) → sockets (configure_socket net all_fns f c w).0 ≡ sockets w
  unfolding configure_socket
  sockets-configure f c w = ground (arith, sockets-run all_fns f c w sockets-control)

  sockets-listen_net :
      (b : Bool) (f : Family) (port : ℕ) (w : W)
      → sockets (listen_net net all_fns b f port w).0
        ≡ held_port (listen_net net all_fns b f port w).1 (sockets w)
  unfolding listen_net
  sockets-listen_net b f port w = elim (Outcome-cases (net.listen_udp f port w).1) [
    | inl (c, e) ↦ ground (
      arith,
      sockets-listen f port w,
      sockets-configure f c (net.listen_udp f port w).0,
      sockets-close c (configure_socket net all_fns f c (net.listen_udp f port w).0).0,
      remove_head c (sockets w),
    )
    | inr (x, e) ↦ ground (arith, sockets-listen f port w)
  ]

  sockets-second_failed :
      (o : Options) (b r : Bool) (c : Conn) (p : ℕ) (e : Err) (w : W) (before : List Conn)
      → sockets w ≡ c ∷ before
      → sockets (second_failed net o b r c p e w).0
        ≡ held_pass (second_failed net o b r c p e w).1 before
  unfolding second_failed
  sockets-second_failed o b r c p e w before h =
      ground (arith, sockets-close c w, remove_head c before)

  sockets-listen_second :
      (s : Bind) (b r : Bool) (f : Family) (c : Conn) (p : ℕ) (w : W) (before : List Conn)
      → sockets w ≡ c ∷ before
      → sockets (listen_second net all_fns s b r f c p w).0
        ≡ held_pass (listen_second net all_fns s b r f c p w).1 before
  unfolding listen_second
  sockets-listen_second s b r f c p w before h =
      elim (Outcome-cases (listen_net net all_fns s.has_network f p w).1) [
        | inl ((c2, p2), e) ↦ ground (arith, sockets-listen_net s.has_network f p w)
        | inr (x, e) ↦ ground (
          arith,
          sockets-listen_net s.has_network f p w,
          sockets-second_failed s.options b r c p x (listen_net net all_fns s.has_network f p w).0
              before,
        )
      ]

  sockets-listen_only_second :
      (s : Bind) (f : Family) (p : ℕ) (w : W)
      → sockets (listen_only_second net all_fns s f p w).0
        ≡ held_pass (listen_only_second net all_fns s f p w).1 (sockets w)
  unfolding listen_only_second
  sockets-listen_only_second s f p w =
      elim (Outcome-cases (listen_net net all_fns s.has_network f p w).1) [
        | inl ((c2, p2), e) ↦ ground (arith, sockets-listen_net s.has_network f p w)
        | inr (x, e) ↦ ground (arith, sockets-listen_net s.has_network f p w)
      ]

  sockets-pass :
      (s : Bind) (port : ℕ) (r : Bool) (w : W)
      → sockets (pass net all_fns s port r w).0
        ≡ held_pass (pass net all_fns s port r w).1 (sockets w)
  unfolding pass
  sockets-pass s port r w =
      let f1 = (family_order s.options).0 in
      let f2 = (family_order s.options).1 in
      let w1 = (listen_net net all_fns s.has_network f1 port w).0 in
      elim (Outcome-cases (listen_net net all_fns s.has_network f1 port w).1) [
        | inl ((c, p), e) ↦ ground (
          arith,
          sockets-listen_net s.has_network f1 port w,
          sockets-listen_second s (port == 0) r f2 c p w1 (sockets w),
        )
        | inr (x, e) ↦ ground (
          arith,
          sockets-listen_net s.has_network f1 port w,
          sockets-listen_only_second s f2 port w1,
        )
      ]

  sockets-passes :
      (s : Bind) (port left : ℕ) (w : W)
      → sockets (passes net all_fns s port left w).0
        ≡ held_pass (passes net all_fns s port left w).1 (sockets w)
  unfolding passes
  sockets-passes s port zero w = sockets-pass s port false w
  sockets-passes s port (suc left) w = ground (
    arith,
    sockets-pass s port true w,
    sockets-passes s port left (pass net all_fns s port true w).0,
  )

-- The sockets that a bind holds, the one opened last in front.
abbrev pub with_bind : Bind → List Conn → List Conn
with_bind s o =
    if s.options.ipv6_first then also s.ipv4 (also s.ipv6 o) else also s.ipv6 (also s.ipv4 o)

-- What `Open` leaves: on success the sockets of the bind and no other, on an error none, and the
-- bind as it was.
pub record Leaves {W : Type 0} (sockets : W → List Conn) (s : Bind) (w : W)
    (r : W × Bind × Outcome Opened) : Type 0 where
  pub on_ok : (o : Opened) → r.2 ≡ ok o → sockets r.0 ≡ with_bind r.1 (sockets w)
  pub on_err : (e : Err) → r.2 ≡ err e → (sockets r.0 ≡ sockets w) × (r.1 ≡ s)

module _ {W : Type 0} (net : Net W) (all_fns : List (ControlFn net)) (k : Sockets net all_fns) where
  open k use {sockets}

  closed_none : (s : Bind) → is_open s ≡ false → (s.ipv4 ≡ none) × (s.ipv6 ≡ none)
  unfolding is_open
  closed_none s h = ground arith

  -- the sockets of the two families, in the order of opening
  abbrev in_order : Bool → Option Conn → Option Conn → List Conn → List Conn
  in_order six v4 v6 o = if six then also v4 (also v6 o) else also v6 (also v4 o)

  setup_both-Leaves :
      (s : Bind) (v4 v6 : Option Conn) (p : ℕ) (n : Option Err) (w0 w : W)
      → (s.ipv4 ≡ none) × (s.ipv6 ≡ none)
      → sockets w ≡ in_order s.options.ipv6_first v4 v6 (sockets w0)
      → Leaves sockets s w0 (setup_both net s v4 v6 p n w)
  unfolding setup_both setup4 setup6
  setup_both-Leaves s none none p n w0 w cl h = record {
    on_ok = λ o e. cc;
    on_err = λ x e. (ground arith, refl);
  }
  setup_both-Leaves s none (some b) p n w0 w cl h = record {
    on_ok = λ o e. ground arith;
    on_err = λ x e. cc;
  }
  setup_both-Leaves s (some a) none p n w0 w cl h = record {
    on_ok = λ o e. ground arith;
    on_err = λ x e. cc;
  }
  setup_both-Leaves s (some a) (some b) p n w0 w cl h = record {
    on_ok = λ o e. h;
    on_err = λ x e. cc;
  }

  finish_open-Leaves :
      (s : Bind) (p : Pass) (w0 w : W)
      → is_open s ≡ false
      → sockets w ≡ held_pass p (sockets w0)
      → Leaves sockets s w0 (finish_open net s p w)
  unfolding finish_open
  finish_open-Leaves s again w0 w closed h = record { on_ok = λ o e. cc; on_err = λ x e. (h, refl) }
  finish_open-Leaves s (fails x) w0 w closed h = record {
    on_ok = λ o e. cc;
    on_err = λ x e. (h, refl);
  }
  finish_open-Leaves s (opens first second p n) w0 w closed h =
      elim (Bool-cases s.options.ipv6_first) [
        | inl six ↦
            simp six (setup_both-Leaves s second first p n w0 w (closed_none s closed) (simp six h))
        | inr four ↦
            simp four
              (setup_both-Leaves s first second p n w0 w (closed_none s closed) (simp four h))
      ]

  -- On every path through `Open` - the retries included - an error leaves no socket behind and the
  -- bind unchanged, and a success leaves open exactly the sockets that the bind now holds.
  pub open_bind-Leaves :
      (s : Bind) (port : ℕ) (w : W) → Leaves sockets s w (open_bind net all_fns s port w)
  unfolding open_bind
  open_bind-Leaves s port w = elim (Bool-cases (is_open s)) [
    | inl already ↦ rw already (record { on_ok = λ o e. cc; on_err = λ x e. (refl, refl) })
    | inr closed ↦ rw closed (
        finish_open-Leaves s (passes net all_fns s port 100 w).1 w
          (passes net all_fns s port 100 w).0 closed (sockets-passes net all_fns k s port 100 w))
  ]
