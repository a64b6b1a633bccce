-- ===== src/Std/Close/Reset.antt =====
-- A close gives back what `Open` took.
use batchudp.Prelude.{
  ℕ, ◌≡◌, refl, sym, ap, ◌∙◌, Bool, true, false, Option, none, some, List, ◌∷◌, arith, inl, inr,
  Bool-cases, if◌then◌else◌, ◌==◌, eq→==,
}
use batchudp.Std.{Err, Conn, Net, Bind, Options, new_std_net_bind_with_options}
use batchudp.Std.Open.{
  ControlFn, Pass, again, fails, opens, open_bind, is_open, finish_open, setup_both, setup4, setup6,
  passes,
}
use batchudp.Std.Open.Leaks.{
  Sockets, Leaves, with_bind, also, remove, open_bind-Leaves, Outcome-cases, remove_head,
}
use batchudp.Std.Close.{close_bind, close_conn, closed}

remove_second : (c d : Conn) (o : List Conn) → remove c (remove d (c ∷ d ∷ o)) ≡ o
unfolding remove
remove_second c d o = elim (Bool-cases (c == d)) [
  | inl same ↦ rw (same, eq→== d c (ground arith))
  | inr other ↦ rw (other, eq→== d d refl, eq→== c c refl)
]

module _ {W : Type 0} (net : Net W) (fns : List (ControlFn net)) (k : Sockets net fns) where
  open k use {sockets, sockets-close}

  sockets-close_conn :
      (c : Option Conn) (w : W) (o : List Conn)
      → sockets w ≡ also c o
      → sockets (close_conn net c w).0 ≡ o
  unfolding close_conn
  sockets-close_conn none w o h = h
  sockets-close_conn (some c) w o h = sockets-close c w ∙ ap (remove c) h ∙ remove_head c o

  sockets-close_both :
      (a b : Option Conn) (w : W) (o : List Conn)
      → sockets w ≡ also b (also a o)
      → sockets (close_conn net b (close_conn net a w).0).0 ≡ o
  unfolding close_conn
  sockets-close_both none b w o h = sockets-close_conn b w o h
  sockets-close_both (some c) none w o h = sockets-close_conn (some c) w o h
  sockets-close_both (some c) (some d) w o h =
      sockets-close d (net.close c w).0
      ∙ ap (remove d) (sockets-close c w ∙ ap (remove c) h)
      ∙ remove_second d c o

  sockets-close_bind :
      (s : Bind) (w : W) (o : List Conn)
      → sockets w ≡ with_bind s o
      → sockets (close_bind net s w).0 ≡ o
  unfolding close_bind
  sockets-close_bind s w o h = elim (Bool-cases s.options.ipv6_first) [
    | inl six ↦
        sockets-close_conn s.ipv6 (close_conn net s.ipv4 w).0 o
          (sockets-close_conn s.ipv4 w (also s.ipv6 o) (simp six at h))
    | inr four ↦ sockets-close_both s.ipv4 s.ipv6 w o (simp four at h)
  ]

  closed-setup_both :
      (linux : Bool) (native : Option Bool) (o : Options) (size : ℕ) (a b : Option Conn) (p : ℕ)
      (e : Option Err) (w : W)
      → closed (setup_both net (new_std_net_bind_with_options linux native o size) a b p e w).1
        ≡ new_std_net_bind_with_options linux native o size
  unfolding closed setup_both setup4 setup6 new_std_net_bind_with_options
  closed-setup_both linux native o size none none p e w = refl
  closed-setup_both linux native o size none (some b) p e w = refl
  closed-setup_both linux native o size (some a) none p e w = refl
  closed-setup_both linux native o size (some a) (some b) p e w = refl

  module _ (linux : Bool) (native : Option Bool) (o : Options) (size : ℕ) where
    abbrev fresh : Bind
    fresh = new_std_net_bind_with_options linux native o size

    closed-in_order :
        (six : Bool) (a b : Option Conn) (p : ℕ) (e : Option Err) (w : W)
        → closed (if six then setup_both net fresh b a p e w else setup_both net fresh a b p e w).1
          ≡ fresh
    closed-in_order true a b p e w = closed-setup_both linux native o size b a p e w
    closed-in_order false a b p e w = closed-setup_both linux native o size a b p e w

    closed-finish_open : (r : Pass) (w : W) → closed (finish_open net fresh r w).1 ≡ fresh
    unfolding finish_open closed new_std_net_bind_with_options
    closed-finish_open again w = refl
    closed-finish_open (fails e) w = refl
    closed-finish_open (opens a b p e) w = closed-in_order o.ipv6_first a b p e w

    with_bind-fresh : (xs : List Conn) → with_bind fresh xs ≡ xs
    unfolding new_std_net_bind_with_options
    with_bind-fresh xs = ground arith

    closed-open_bind : (port : ℕ) (w : W) → closed (open_bind net fns fresh port w).1 ≡ fresh
    unfolding open_bind
    closed-open_bind port w =
        (unfold is_open new_std_net_bind_with_options in
          closed-finish_open (passes net fns fresh port 100 w).1
            (passes net fns fresh port 100 w).0)

    sockets-open_close :
        (port : ℕ) (w : W)
        → sockets
            (close_bind net (open_bind net fns fresh port w).1 (open_bind net fns fresh port w).0).0
          ≡ sockets w
    sockets-open_close port w =
        let l : Leaves sockets fresh w (open_bind net fns fresh port w) =
          open_bind-Leaves net fns k fresh port w in
        elim (Outcome-cases (open_bind net fns fresh port w).2) [
          | inl (r, e) ↦
              sockets-close_bind (open_bind net fns fresh port w).1
                (open_bind net fns fresh port w).0 (sockets w) (l.on_ok r e)
          | inr (x, e) ↦
              ap (λ b. sockets (close_bind net b (open_bind net fns fresh port w).0).0)
                (l.on_err x e).1
              ∙ sockets-close_bind fresh (open_bind net fns fresh port w).0 (sockets w)
                  ((l.on_err x e).0 ∙ sym (with_bind-fresh (sockets w)))
        ]

    -- Whatever a first `Open` does, on success and on every error, a `Close` after it gives back the bind as it was
    -- made, ready to be opened again, and leaves open just the sockets from before.
    pub close_bind-open_bind :
        (port : ℕ) (w : W)
        → ((close_bind net (open_bind net fns fresh port w).1 (open_bind net fns fresh port w).0).1
            ≡ fresh)
          × (sockets
                (close_bind net
                  (open_bind net fns fresh port w).1
                  (open_bind net fns fresh port w).0).0
              ≡ sockets w)
    unfolding close_bind
    close_bind-open_bind port w = (closed-open_bind port w, sockets-open_close port w)
