-- ===== src/Std/Open.antt =====
-- `Open` and `listenNet` of bind_std.go, with `configureSocket` of controlfns.go.
--
-- `goto again` is a recursion on the tries that are left, at most 100.
pub mod Leaks
use batchudp.Prelude.{
  ℕ, zero, suc, ◌%◌, ◌^◌, Bool, true, false, not, ◌&&◌, Option, none, some, List, [], ◌∷◌, ◌++◌,
  ◌==◌, if◌then◌else◌,
}
use batchudp.Std.{
  Err, eafnosupport, eaddrinuse, err_no_network, err_bind_already_open, Outcome, ok, err, Family,
  udp4, udp6, Conn, Net, Options, Bind, ReceiveFunc,
}

unfoldable pub is_eafnosupport : Err → Bool
is_eafnosupport eafnosupport = true
is_eafnosupport _ = false

unfoldable pub is_eaddrinuse : Err → Bool
is_eaddrinuse eaddrinuse = true
is_eaddrinuse _ = false

unfoldable pub family_order : Options → Family × Family
family_order o = if o.ipv6_first then (udp6, udp4) else (udp4, udp6)

-- How one pass from the label `again` ends.
pub data Pass : Type 0 where
  -- `goto again`
  again : Pass
  fails : Err → Pass
  -- the two connections, the port, and the error to report for the second family
  opens : Option Conn → Option Conn → ℕ → Option Err → Pass

-- What a caller of `Open` sees: the functions and the port, and the error that is reported to
-- `OnFamilyOpenError`.
pub record Opened : Type 0 where
  pub fns : List ReceiveFunc
  pub port : ℕ
  pub reported : Option Err

unfoldable pub is_open : Bind → Bool
is_open s = elim s.ipv4 [ some c ↦ true | none ↦ elim s.ipv6 [ some c ↦ true | none ↦ false ] ]

module _ {W : Type 0} (net : Net W) where
  -- A control function on a raw connection: it may fail.
  abbrev pub ControlFn : Type 0
  ControlFn = Family → Conn → W → W × Option Err

  -- The loop over `socketOpenControlFns`, up to the first error.
  unfoldable pub run_control_fns : List ControlFn → Family → Conn → W → W × Option Err
  run_control_fns [] f c w = (w, none)
  run_control_fns (fn ∷ fns) f c w =
      let (w', e) = fn f c w in elim e [ none ↦ run_control_fns fns f c w' | some x ↦ (w', some x) ]

  unfoldable pub configure_socket : List ControlFn → Family → Conn → W → W × Option Err
  configure_socket fns f c w = elim (net.syscall_conn c w) [
    | err e ↦ (w, some e)
    | ok raw ↦ if raw then run_control_fns fns f c w else (w, none)
  ]

  -- `_ = conn.Close()` on the way out with an error
  abbrev pub close_and_fail {ℓ} : {A : Type ℓ} → Conn → Err → W → W × Outcome A
  close_and_fail c e w = let (w', _) = net.close c w in (w', err e)

  unfoldable pub listen_net : List ControlFn → Bool → Family → ℕ → W → W × Outcome (Conn × ℕ)
  listen_net fns has_network f port w =
      if not has_network
      then (w, err err_no_network)
      else let (w1, opened) = net.listen_udp f port w in
        elim opened [
          | err e ↦ (w1, err e)
          | ok c ↦
              let (w2, bad) = configure_socket fns f c w1 in
              elim bad [
                | some e ↦ close_and_fail c e w2
                | none ↦ elim (net.local_port c w2) [
                  | err e ↦ close_and_fail c e w2
                  | ok p ↦ (w2, ok (c, p))
                ]
              ]
        ]

  -- The cases on the second error, where the first connection is open.
  unfoldable pub second_failed : Options → Bool → Bool → Conn → ℕ → Err → W → W × Pass
  second_failed o any_port can_retry c port e w =
      if any_port && (not o.allow_single_family && (is_eaddrinuse e && can_retry))
      then (let (w', _) = net.close c w in (w', again))
      else if o.allow_single_family
      then (w, opens (some c) none port (some e))
      else if not (is_eafnosupport e)
      then (let (w', _) = net.close c w in (w', fails e))
      else (w, opens (some c) none port none)

  -- The second listen, where the first family is open at `port`.
  unfoldable pub listen_second :
      List ControlFn → Bind → Bool → Bool → Family → Conn → ℕ → W → W × Pass
  listen_second fns s any_port can_retry f c port w =
      let (w', r) = listen_net fns s.has_network f port w in
      elim r [
        | ok (c2, p2) ↦ (w', opens (some c) (some c2) port none)
        | err e ↦ second_failed s.options any_port can_retry c port e w'
      ]

  -- The second listen, where the first family is not supported.
  unfoldable pub listen_only_second : List ControlFn → Bind → Family → ℕ → W → W × Pass
  listen_only_second fns s f port w =
      let (w', r) = listen_net fns s.has_network f port w in
      elim r [
        | ok (c2, p2) ↦ (w', opens none (some c2) p2 none)
        | err e ↦ if not (is_eafnosupport e) then (w', fails e) else (w', fails eafnosupport)
      ]

  unfoldable pub pass : List ControlFn → Bind → ℕ → Bool → W → W × Pass
  pass fns s uport can_retry w =
      let (f1, f2) = family_order s.options in
      let (w1, r1) = listen_net fns s.has_network f1 uport w in
      elim r1 [
        | ok (c1, p1) ↦ listen_second fns s (uport == 0) can_retry f2 c1 p1 w1
        | err e ↦
            if not (is_eafnosupport e) then (w1, fails e) else listen_only_second fns s f2 uport w1
      ]

  -- `tries` is 100 less the number given.
  unfoldable pub passes : List ControlFn → Bind → ℕ → ℕ → W → W × Pass
  passes fns s uport zero w = pass fns s uport false w
  passes fns s uport (suc left) w =
      let (w', r) = pass fns s uport true w in
      let next = passes fns s uport left w' in
      elim r [ again ↦ next | fails e ↦ (w', fails e) | opens a b p n ↦ (w', opens a b p n) ]

  -- Setting up one family: the state, and its receive function.
  unfoldable pub setup4 : Option Conn → W → Bind → Bind × List ReceiveFunc
  setup4 none w s = (s, [])
  setup4 (some c) w s =
      let (tx, rx) = net.supports_offload c w in
      let pc = (if net.is_native c then some c else none) in
      (
        record s {
          ipv4_tx_offload = tx;
          ipv4_rx_offload = rx;
          ipv4_pc = (if net.is_native c then some c else s.ipv4_pc);
          ipv4 = some c;
        },
        record { family = udp4; reader = pc; conn = c; rx_offload = rx } ∷ [],
      )

  unfoldable pub setup6 : Option Conn → W → Bind → Bind × List ReceiveFunc
  setup6 none w s = (s, [])
  setup6 (some c) w s =
      let (tx, rx) = net.supports_offload c w in
      let pc = (if net.is_native c then some c else none) in
      (
        record s {
          ipv6_tx_offload = tx;
          ipv6_rx_offload = rx;
          ipv6_pc = (if net.is_native c then some c else s.ipv6_pc);
          ipv6 = some c;
        },
        record { family = udp6; reader = pc; conn = c; rx_offload = rx } ∷ [],
      )

  unfoldable pub setup_both :
      Bind → Option Conn → Option Conn → ℕ → Option Err → W → W × Bind × Outcome Opened
  setup_both s v4 v6 port note w =
      let (s1, fns4) = setup4 v4 w s in
      let (s2, fns6) = setup6 v6 w s1 in
      elim (fns4 ++ fns6) [
        | [] ↦ (w, s2, err eafnosupport)
        | f ∷ fs ↦ (
          w,
          s2,
          ok (record {
            fns = f ∷ fs;
            port = port % 2 ^ 16;
            reported = (if s.options.notify then note else none);
          }),
        )
      ]

  -- `again` does not occur here: the last try cannot ask for another.
  unfoldable pub finish_open : Bind → Pass → W → W × Bind × Outcome Opened
  finish_open s again w = (w, s, err eaddrinuse)
  finish_open s (fails e) w = (w, s, err e)
  finish_open s (opens first second port note) w =
      if s.options.ipv6_first
      then setup_both s second first port note w
      else setup_both s first second port note w

  unfoldable pub open_bind : List ControlFn → Bind → ℕ → W → W × Bind × Outcome Opened
  open_bind fns s uport w =
      if is_open s
      then (w, s, err err_bind_already_open)
      else (let (w', r) = passes fns s uport 100 w in finish_open s r w')
