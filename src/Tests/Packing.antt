-- ===== src/Tests/Packing.antt =====
-- Runs of the coalescing and of the control messages.
use batchudp.Prelude.{
  ℕ, ◌≡◌, ◌≢◌, refl, List, [], ◌∷◌, ◌++◌, some, none, replicate, arith, ap, take, drop,
  take-append_le,
}
use batchudp.Slice.{Slice, Msg, UdpAddr, v4}
use batchudp.Gso.{starved, get_gso_size, set_gso_size, is_gso}
use batchudp.Gso.Scan.{Cmsg, control, encode, get_gso_size-ne-starved, IsOther, IsWellFormed}
use batchudp.Gso.Control.{Sets, set_gso_size-Sets}
use batchudp.Sticky.{Endpoint, get_src_from_control, is_pktinfo4, is_pktinfo6}
use batchudp.Sticky.Capture.{Captured, IsPassed, IsPktinfo, family4, get_src_from_control-Captured}
use batchudp.Sticky.Source.{
  PktinfoLayout, LayoutLaws, Says, src_ip, src_ifidx, src_ip-get_src_from_control,
}
use batchudp.Std.Pack.{coalesce_messages-Packs, kernel_gso}
use batchudp.Std.Pack as StdPack
use batchudp.Batching.Pack as Gathering
use batchudp.Batching.Pack.{batching-Packs}
use batchudp.Coalesce.Roundtrip.{Packs, contents}
use batchudp.Tests.Layout.{cells, cells-UnixLaws}

abbrev pub room : ℕ → Slice
room n = record { bytes = []; spare = replicate n 0 }

abbrev pub pooled : Msg
pooled = record { buffers = room 0 ∷ []; oob = room 20; addr = none; n = 0; nn = 0 }

abbrev pub dest : UdpAddr
dest = record { ip = 127 ∷ 0 ∷ 0 ∷ 1 ∷ []; udp_port = 51820 }

abbrev pub pktinfo : Cmsg
pktinfo = record {
  hdr = record { hdr_len = 6; level = 0; type = 8 };
  content = 10 ∷ 11 ∷ 12 ∷ [];
  pad = 0 ∷ [];
}

abbrev gro : Cmsg
gro = record {
  hdr = record { hdr_len = 5; level = 17; type = 104 };
  content = 5 ∷ 120 ∷ [];
  pad = 0 ∷ [];
}

pktinfo-IsWellFormed : IsWellFormed cells pktinfo
pktinfo-IsWellFormed = record { has_data = omega arith; len_field = refl; padded = refl }

gro-IsPassed : IsPassed cells gro
unfolding is_pktinfo4 is_pktinfo6
gro-IsPassed = record {
  formed = record { has_data = omega arith; len_field = refl; padded = refl };
  not4 = refl;
  not6 = refl;
}

pktinfo-IsPktinfo : IsPktinfo cells pktinfo
unfolding is_pktinfo4
pktinfo-IsPktinfo = family4 refl refl

pub pktinfo-IsOther : IsOther cells 103 pktinfo
unfolding is_gso
pktinfo-IsOther = record { formed = pktinfo-IsWellFormed; other = refl }

abbrev pub endpoint : Endpoint
endpoint = record {
  dst = record { addr = v4 (127 ∷ 0 ∷ 0 ∷ 1 ∷ []); port = 51820 };
  src = some (record { bytes = encode cells pktinfo; spare = [] });
}

abbrev pub bufs : List Slice
bufs =
    record { bytes = 1 ∷ 2 ∷ 3 ∷ []; spare = replicate 9 0 }
    ∷ record { bytes = 4 ∷ 5 ∷ []; spare = [] }
    ∷ []

get_gso_size-ne-starved_example : get_gso_size cells (encode cells gro ++ (1 ∷ [])) ≢ starved
get_gso_size-ne-starved_example =
    get_gso_size-ne-starved cells cells-UnixLaws (encode cells gro ++ (1 ∷ []))

set_gso_size-Sets_example : Sets cells (room 20) 1400 (set_gso_size cells (room 20) 1400)
set_gso_size-Sets_example = set_gso_size-Sets cells cells-UnixLaws (room 20) 1400

get_src_from_control-Captured_example :
    Captured cells pktinfo (
      get_src_from_control cells
        (control cells (gro ∷ []) ++ (encode cells pktinfo ++ []))
        endpoint)
    × ((get_src_from_control cells
          (control cells (gro ∷ []) ++ (encode cells pktinfo ++ []))
          endpoint).dst
        ≡ endpoint.dst)
get_src_from_control-Captured_example =
    get_src_from_control-Captured cells cells-UnixLaws (gro ∷ []) endpoint (gro-IsPassed, tt)
      pktinfo [] pktinfo-IsWellFormed pktinfo-IsPktinfo

abbrev head_of : List ℕ → ℕ
head_of [] = 0
head_of (x ∷ xs) = x

abbrev infos : PktinfoLayout
infos = record {
  spec_dst = λ xs. drop 1 (take 3 xs);
  ifindex4 = λ xs. head_of (take 3 xs);
  addr6 = λ xs. take 4 (take 5 xs);
  ifindex6 = λ xs. head_of (drop 4 (take 5 xs));
}

infos-LayoutLaws : LayoutLaws cells infos
infos-LayoutLaws = record {
  spec_dst-append = λ xs ys e. ap (drop 1) (take-append_le xs ys 3 (omega (arith, e)));
  ifindex4-append = λ xs ys e. ap head_of (take-append_le xs ys 3 (omega (arith, e)));
  addr6-append = λ xs ys e. ap (take 4) (take-append_le xs ys 5 (omega (arith, e)));
  ifindex6-append =
      λ xs ys e. ap (λ zs. head_of (drop 4 zs)) (take-append_le xs ys 5 (omega (arith, e)));
  sizes_differ = λ h. absurd (omega (arith, h));
}

src_ip-get_src_from_control_example :
    Says cells infos pktinfo
      (src_ip cells infos (
        get_src_from_control cells
          (control cells (gro ∷ []) ++ (encode cells pktinfo ++ []))
          endpoint))
      (src_ifidx cells infos (
        get_src_from_control cells
          (control cells (gro ∷ []) ++ (encode cells pktinfo ++ []))
          endpoint))
src_ip-get_src_from_control_example =
    src_ip-get_src_from_control cells cells-UnixLaws infos infos-LayoutLaws (gro ∷ []) pktinfo []
      endpoint (gro-IsPassed, tt) pktinfo-IsWellFormed pktinfo-IsPktinfo

coalesce_messages-Packs_example :
    Packs
      (kernel_gso cells)
      dest
      65507
      []
      (contents bufs)
      (StdPack.coalesce_messages dest endpoint bufs (pooled ∷ pooled ∷ []) (set_gso_size cells))
coalesce_messages-Packs_example =
    coalesce_messages-Packs cells cells-UnixLaws dest (encode cells pktinfo) (pktinfo ∷ []) refl
      (pktinfo-IsOther, tt) endpoint bufs (pooled ∷ pooled ∷ []) refl
      ((room 0, refl, omega arith), ((room 0, refl, omega arith), tt)) (omega arith)
      (omega arith, (omega arith, tt))

batching-Packs_example :
    Packs
      (kernel_gso cells)
      dest
      65507
      []
      (contents bufs)
      (Gathering.coalesce_messages cells dest bufs (pooled ∷ pooled ∷ []))
unfolding Gathering.max_payload_len Gathering.has_to4
batching-Packs_example =
    batching-Packs cells cells-UnixLaws dest bufs (pooled ∷ pooled ∷ [])
      ((room 0, refl, omega arith), ((room 0, refl, omega arith), tt)) (omega arith)
      (omega arith, (omega arith, tt))
