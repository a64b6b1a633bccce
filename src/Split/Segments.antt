-- ===== src/Split/Segments.antt =====
-- The segments of a received message, and what one move of a segment does.
use batchudp.Prelude.{
  ℕ, suc, ◌+◌, ◌-◌, ◌≤◌, ◌<◌, ◌≡◌, refl, sym, ap, subst, ◌∙◌, false, Option, some, List, [], ◌∷◌,
  ◌++◌, length, set, get_elem?, take, drop, ltb, leb, none, ◌⊎◌, inl, inr, Bool-cases, map, arith,
  take-all, length-append, length-take, length-drop, take-length_append, take-drop_prefix,
  get_elem?-append_lt, get_elem?-lt, get_elem?-set_ne, set-append_lt, le→leb, take-append_le, All,
  All-get, All-set, length-set, take-set_self, map-append,
}
use batchudp.Slice.{Slice, len, cap_of, Msg, UdpAddr}
use batchudp.Std.Pack.{first}
use batchudp.Split.{SplitResult, split, move_segment, receive_segment, source_segment, sub_slice}

-- A datagram as the caller sees it.
abbrev pub View : Type 0
View = List ℕ × Option UdpAddr

abbrev pub view : Msg → View
view m = (take m.n (first m.buffers).bytes, m.addr)

-- A message whose buffer takes `g` bytes.
pub record HasRoom (g : ℕ) (m : Msg) : Type 0 where
  pub has_buffer : 0 < length m.buffers
  pub large : g ≤ len (first m.buffers)

get_elem?-first : (bs : List Slice) → 0 < length bs → get_elem? bs 0 ≡ some (first bs)
get_elem?-first [] h = elim h [ ]
get_elem?-first (b ∷ bs) h = refl

module _ (g : ℕ) (xs : List ℕ) (addr : Option UdpAddr) (m : Msg) (room : HasRoom g m)
    (fit : length xs ≤ g) where
  first-set : (bs : List Slice) (v : Slice) → 0 < length bs → first (set bs 0 v) ≡ v
  first-set [] v h = elim h [ ]
  first-set (b ∷ bs) v h = refl

  put_all : take (len (first m.buffers)) xs ≡ xs
  put_all = take-all (len (first m.buffers)) xs (omega (arith, room.large))

  -- `m` with the segment in its buffer
  abbrev filled : Msg
  filled = record m {
    buffers =
        set m.buffers 0
          (record (first m.buffers) { bytes = xs ++ drop (length xs) (first m.buffers).bytes });
    n = length xs;
    addr = addr;
  }

  receive_segment_lem : receive_segment xs addr m ≡ some filled
  unfolding receive_segment
  receive_segment_lem = rw (get_elem?-first m.buffers room.has_buffer, put_all, receive_segment)

  view-filled : view filled ≡ (xs, addr)
  view-filled =
      ap (λ (s : Slice). (take (length xs) s.bytes, addr)) (first-set m.buffers _ room.has_buffer)
      ∙ ap (λ ys. (ys, addr)) (take-length_append xs (drop (length xs) (first m.buffers).bytes))

  filled-HasRoom : HasRoom g filled
  filled-HasRoom = record {
    has_buffer = omega (
      arith,
      length-set m.buffers 0
          (record (first m.buffers) { bytes = xs ++ drop (length xs) (first m.buffers).bytes }),
      room.has_buffer,
    );
    large = subst (λ (t : Slice). g ≤ len t) (sym (first-set m.buffers _ room.has_buffer)) whole;
  }
    where
      whole : g ≤ length (xs ++ drop (length xs) (first m.buffers).bytes)
      whole = omega (
        arith,
        length-append xs (drop (length xs) (first m.buffers).bytes),
        length-drop (length xs) (first m.buffers).bytes,
        room.large,
      )

-- A range inside the `k` bytes that were received.
sub_slice-range :
    (s : Slice) (start end k : ℕ)
    → start ≤ end
    → end ≤ k
    → k ≤ len s
    → sub_slice s start end ≡ some (take (end - start) (drop start (take k s.bytes)))
unfolding sub_slice
sub_slice-range s start end k h e f =
    rw (le→leb start end h, le→leb end (cap_of s) (omega arith))
      (ap some (
        sym (take-drop_prefix (s.bytes ++ s.spare) start (end - start) k (omega arith))
        ∙ ap (λ ys. take (end - start) (drop start ys)) (take-append_le s.bytes s.spare k f)))

source_segment-range :
    (m : Msg) (start end k : ℕ)
    → 0 < length m.buffers
    → start ≤ end
    → end ≤ k
    → k ≤ len (first m.buffers)
    → source_segment m start end
      ≡ some (take (end - start) (drop start (take k (first m.buffers).bytes)))
unfolding source_segment
source_segment-range m start end k has h e f =
    rw (get_elem?-first m.buffers has, source_segment)
      (sub_slice-range (first m.buffers) start end k h e f)

-- `s[:n]` within the capacity and beyond it
pub sub_slice-prefix :
    (s : Slice) (n : ℕ) → n ≤ cap_of s → sub_slice s 0 n ≡ some (take n (s.bytes ++ s.spare))
unfolding sub_slice
sub_slice-prefix s n h =
    let whole : n - 0 ≡ n = omega arith in
    rw (le→leb 0 n (omega arith), le→leb n (cap_of s) h, whole)

pub sub_slice-cases :
    (s : Slice) (n : ℕ)
    → (sub_slice s 0 n ≡ none) ⊎ (sub_slice s 0 n ≡ some (take n (s.bytes ++ s.spare)))
unfolding sub_slice
sub_slice-cases s n =
    let whole : n - 0 ≡ n = omega arith in
    elim (Bool-cases (leb n (cap_of s))) [
      | inl inside ↦ inr (rw (le→leb 0 n (omega arith), inside, whole))
      | inr beyond ↦ inl (rw (le→leb 0 n (omega arith), beyond))
    ]

-- After a move: slot `n` holds the segment, and the array keeps its shape.
pub record Moved (i n g : ℕ) (all rest : List Msg) (m : Msg) (segment : List ℕ) (r : SplitResult)
    : Type 0 where
  pub after : List Msg
  pub result : r ≡ split (n + 1) (after ++ rest)
  pub same_length : length after ≡ length all
  pub still_rooms : All (HasRoom g) after
  pub views : map view (take (n + 1) after) ≡ map view (take n all) ++ ((segment, m.addr) ∷ [])
  pub source_kept : n < i → get_elem? after i ≡ some m

module _ (i start end n g : ℕ) (all rest : List Msg) (m : Msg) (at_end : length all ≡ i + 1)
    (source : get_elem? all i ≡ some m) (in_range : n ≤ i) (rooms : All (HasRoom g) all)
    (h : start ≤ end) (e : end ≤ m.n) (f : m.n ≤ len (first m.buffers)) (small : m.n ≤ g) where
  abbrev moved : List ℕ
  moved = take (end - start) (drop start (take m.n (first m.buffers).bytes))

  length-moved : length moved ≤ g
  length-moved = omega (
    arith,
    length-take (end - start) (drop start (take m.n (first m.buffers).bytes)),
    length-drop start (take m.n (first m.buffers).bytes),
    length-take m.n (first m.buffers).bytes,
  )

  module _ (dst : Msg) (at_n : get_elem? all n ≡ some dst) where
    dst-HasRoom : HasRoom g dst
    dst-HasRoom = All-get (HasRoom g) all n dst rooms at_n

    received : Msg
    received = filled g moved m.addr dst dst-HasRoom length-moved

    move_segment_lem :
        move_segment i start end n (all ++ rest) ≡ split (n + 1) (set all n received ++ rest)
    unfolding move_segment received
    move_segment_lem =
        let inside : ltb i n ≡ false = ground arith in
        rw
          (
            inside,
            get_elem?-append_lt all rest i (omega arith) ∙ source,
            source_segment-range m start end m.n
                (All-get (HasRoom g) all i m rooms source).has_buffer h e f,
            get_elem?-append_lt all rest n (omega arith) ∙ at_n,
            receive_segment_lem g moved m.addr dst dst-HasRoom length-moved,
          )
          (ap (split (n + 1)) (set-append_lt all rest n received (omega arith)))

    views-set :
        map view (take (n + 1) (set all n received))
        ≡ map view (take n all) ++ ((moved, m.addr) ∷ [])
    unfolding received
    views-set =
        let e : n + 1 ≡ suc n = omega arith in
        ap (λ k. map view (take k (set all n received))) e
        ∙ ap (map view) (take-set_self all n received (omega arith))
        ∙ map-append view (take n all) (received ∷ [])
        ∙ ap (λ v. map view (take n all) ++ (v ∷ []))
            (view-filled g moved m.addr dst dst-HasRoom length-moved)

  pub move_segment-Moved : Moved i n g all rest m moved (move_segment i start end n (all ++ rest))
  unfolding received
  move_segment-Moved =
      let (dst, at_n) = get_elem?-lt all n (omega arith) in
      record {
        after = set all n (received dst at_n);
        result = move_segment_lem dst at_n;
        same_length = length-set all n (received dst at_n);
        still_rooms =
            All-set (HasRoom g) all n (received dst at_n) rooms
              (filled-HasRoom g moved m.addr dst (dst-HasRoom dst at_n) length-moved);
        views = views-set dst at_n;
        source_kept = λ lt. get_elem?-set_ne all (received dst at_n) (omega arith) ∙ source;
      }
