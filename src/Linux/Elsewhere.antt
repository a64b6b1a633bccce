-- ===== src/Linux/Elsewhere.antt =====
-- The control functions of controlfns_unix.go and controlfns_windows.go, over the same parameter.
use batchudp.Prelude.{◌≡◌, refl, sym, ap, ◌∙◌, Option, none, some}
use batchudp.Std.{Err, Family, udp4, udp6, Conn}
use batchudp.Linux.{
  so_rcvbuf, so_sndbuf, ipv6_v6only, Sockopts, socket_buffer_size, set_quietly, only_v6,
}

module _ {W : Type 0} (sys : Sockopts W) where
  -- The one function of `socketOpenControlFns`, the same on Windows.
  unfoldable pub size_buffers_elsewhere : Family → Conn → W → W × Option Err
  size_buffers_elsewhere f c w = elim (sys.control c w) [
    | some e ↦ (w, some e)
    | none ↦ (
      set_quietly sys c so_sndbuf socket_buffer_size
          (set_quietly sys c so_rcvbuf socket_buffer_size w),
      none,
    )
  ]

  -- The listen control function, which does not look at the error of `Control`.
  unfoldable pub only_v6_elsewhere : Family → Conn → W → W × Option Err
  only_v6_elsewhere udp4 c w = (w, none)
  only_v6_elsewhere udp6 c w = elim (sys.control c w) [
    | some e ↦ (w, none)
    | none ↦ sys.set_int c ipv6_v6only 1 w
  ]

  -- Where raw access is granted it is the function of Linux; where it is refused, Linux fails and
  -- this one says nothing.
  only_v6_elsewhere-only_v6 :
      (f : Family) (c : Conn) (w : W)
      → sys.control c w ≡ none
      → only_v6_elsewhere f c w ≡ only_v6 sys f c w
  unfolding only_v6_elsewhere only_v6
  only_v6_elsewhere-only_v6 udp4 c w granted = refl
  only_v6_elsewhere-only_v6 udp6 c w granted =
      let linux : only_v6 sys udp6 c w ≡ sys.set_int c ipv6_v6only 1 w =
        ap (λ r. elim r [ some e ↦ (w, some e) | none ↦ sys.set_int c ipv6_v6only 1 w ]) granted in
      let other : only_v6_elsewhere udp6 c w ≡ sys.set_int c ipv6_v6only 1 w =
        ap (λ r. elim r [ some e ↦ (w, none) | none ↦ sys.set_int c ipv6_v6only 1 w ]) granted in
      other ∙ sym linux
