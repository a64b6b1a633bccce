-- ===== src/Split/Outer.antt =====
-- `splitCoalescedMessages` as a whole: the caller finds, from slot 0 on, every segment of every
-- message that was read, in order, with its sender's address.
use batchudp.Prelude.{
  ℕ, suc, ◌+◌, ◌-◌, ◌/◌, ◌≤◌, ◌<◌, ◌≡◌, refl, sym, ap, ◌∙◌, false, some, List, [], ◌∷◌, ◌++◌,
  length, set, get_elem?, take, ltb, ◌==◌, if◌then◌else◌, map, min, arith, length-append,
  length-take, get_elem?-append_at, get_elem?-append_lt, get_elem?-lt, set-append_lt, length-set,
  take-set_ge, inl, inr, All, All-append, All-set, All-get, append_assoc, append-nil, Bool-cases,
  ne→==, eq→==, take-append_le,
}
use batchudp.Prelude.Chunks.{chunks, length-chunks, chunks-one}
use batchudp.Slice.{len, cap_of, Msg}
use batchudp.Std.Pack.{first}
use batchudp.Gso.{GsoResult, size, parse_error, starved}
use batchudp.Split.{
  SplitResult, split, split_message, zero_source, num_to_split, first_end, split_from,
  split_coalesced_messages,
}
use batchudp.Split.Segments.{View, view, HasRoom, sub_slice-prefix}
use batchudp.Split.Inner.{Cut, split_message-Cut}

-- the control data that was received with a message
abbrev pub control_of : Msg → List ℕ
control_of m = take m.nn (m.oob.bytes ++ m.oob.spare)

-- The datagrams of a message with segment size `k`, 0 for none.
abbrev pub segments : Msg → ℕ → List (List ℕ)
segments m k = chunks (if ltb 0 k then k else m.n) (take m.n (first m.buffers).bytes)

abbrev pub views_of : Msg → List (List ℕ) → List View
views_of m = map (λ xs. (xs, m.addr))

module _ (get_gso : List ℕ → GsoResult) where
  -- What was received in a list of messages, up to the first empty one.
  unfoldable pub received : List Msg → List View
  received [] = []
  received (m ∷ ms) = if m.n == 0 then [] else elim (get_gso (control_of m)) [
    | parse_error ↦ []
    | starved ↦ []
    | size k ↦ views_of m (segments m k) ++ received ms
  ]

  -- The messages from index `i` on hold well-formed reads of at most `g` bytes, and their segments
  -- fit: behind `n` segments, those of the message at `i` end at slot `i` or before.
  pub data Fitting (g : ℕ) : ℕ → ℕ → List Msg → Type 0 where
    no_more : (i n : ℕ) → Fitting g i n []
    unread : (i n : ℕ) (m : Msg) (ms : List Msg) → m.n ≡ 0 → Fitting g i n (m ∷ ms)
    read :
        (i n : ℕ) (m : Msg) (ms : List Msg) (k : ℕ)
        → m.nn ≤ cap_of m.oob
        → get_gso (control_of m) ≡ size k
        → 0 < m.n
        → k ≤ m.n
        → m.n ≤ len (first m.buffers)
        → m.n ≤ g
        → n + length (segments m k) ≤ i + 1
        → Fitting g (i + 1) (n + length (segments m k)) ms
        → Fitting g i n (m ∷ ms)

abbrev piece : Msg → ℕ → ℕ
piece m k = if ltb 0 k then k else m.n

piece-pos : (m : Msg) (k : ℕ) → 0 < m.n → 0 < piece m k
piece-pos m k h = ground arith

module _ (get_gso : List ℕ → GsoResult) (m : Msg) (k : ℕ) (pos : 0 < m.n) (le : k ≤ m.n)
    (f : m.n ≤ len (first m.buffers)) where
  length-bytes : length (take m.n (first m.buffers).bytes) ≡ m.n
  length-bytes = omega (arith, length-take m.n (first m.buffers).bytes)

  count_one : k ≡ 0 → length (segments m k) ≡ 1
  count_one z =
      let off : ltb 0 k ≡ false = ground arith in
      rw off (
        ap length (
          chunks-one m.n (take m.n (first m.buffers).bytes) (omega (arith, length-bytes))
            (omega (arith, length-bytes))))

  -- `numToSplit` is the number of segments.
  count_lem : num_to_split get_gso m.n k ≡ length (segments m k)
  unfolding num_to_split
  count_lem = elim (Bool-cases (ltb 0 k)) [
    | inl on ↦ rw on (
        ap (λ l. (l + k - 1) / k) (sym length-bytes)
        ∙ sym (length-chunks k (take m.n (first m.buffers).bytes) (ground arith)))
    | inr off ↦ let z : k ≡ 0 = ground arith in rw off (rw off at (sym (count_one z)))
  ]

  first_end_lem : first_end get_gso m.n k ≡ min (0 + piece m k) m.n
  unfolding first_end
  first_end_lem = ground arith

  module _ (g i n : ℕ) (all ms : List Msg) (small : m.n ≤ g) (shape : length all ≡ i)
      (rooms : All (HasRoom g) all) (room : HasRoom g m)
      (fits : n + length (segments m k) ≤ i + 1) where
    cut_lem :
        Cut i k
          (piece m k)
          g
          ms
          m
          f
          small
          (piece-pos m k pos)
          (all ++ (m ∷ []))
          n
          (length (segments m k))
          (segments m k)
          (split_message
            (num_to_split get_gso m.n k)
            i
            k
            0
            (first_end get_gso m.n k)
            n
            (all ++ (m ∷ ms)))
    cut_lem =
        rw (count_lem, ← append_assoc all (m ∷ []) ms)
          (split_message-Cut i k (piece m k) g ms m f small (piece-pos m k pos)
            (length (segments m k)) (all ++ (m ∷ [])) n 0 (first_end get_gso m.n k)
            (record {
              shape = omega (arith, length-append all (m ∷ []));
              source = ap (get_elem? (all ++ (m ∷ []))) (sym shape) ∙ get_elem?-append_at all m [];
              rooms = All-append (HasRoom g) all (m ∷ []) rooms (room, tt);
              starts = pos;
              ends = first_end_lem;
              rounds = refl;
              fits = fits;
              size_used = λ many. elim (Bool-cases (ltb 0 k)) [
                | inl on ↦ rw on
                | inr off ↦ absurd (omega (arith, count_one (ground arith)))
              ];
            }))

-- Clearing the source does not touch what has been received.
record Zeroed (i n g : ℕ) (all ms : List Msg) (r : List Msg) : Type 0 where
  after : List Msg
  result : r ≡ after ++ ms
  same_length : length after ≡ i + 1
  still_rooms : All (HasRoom g) after
  views : map view (take n after) ≡ map view (take n all)

zero_source-Zeroed :
    (i n g : ℕ) (all ms : List Msg)
    → length all ≡ i + 1
    → n ≤ i + 1
    → All (HasRoom g) all
    → Zeroed i n g all ms (zero_source i n (all ++ ms))
unfolding zero_source
zero_source-Zeroed i n g all ms shape h rooms =
    let (m, at_i) = get_elem?-lt all i (omega arith) in
    let here : get_elem? (all ++ ms) i ≡ some m =
      get_elem?-append_lt all ms i (omega arith) ∙ at_i in
    elim (Bool-cases (i + 1 == n)) [
      | inl last ↦ record {
        after = all;
        result = rw (here, zero_source, last);
        same_length = shape;
        still_rooms = rooms;
        views = refl;
      }
      | inr other ↦ record {
        after = set all i (record m { n = 0 });
        result =
            rw (here, zero_source, other)
              (set-append_lt all ms i (record m { n = 0 }) (omega arith));
        same_length = length-set all i (record m { n = 0 }) ∙ shape;
        still_rooms =
            All-set (HasRoom g) all i (record m { n = 0 }) rooms
              (let room : HasRoom g m = All-get (HasRoom g) all i m rooms at_i in
                record { has_buffer = room.has_buffer; large = room.large });
        views = ap (map view) (take-set_ge all n i (record m { n = 0 }) (ground arith));
      }
    ]

module _ (get_gso : List ℕ → GsoResult) (g : ℕ) where
  -- The loop has received `want` behind the first `n` messages of `all`, and reports their number.
  pub record Splits (n : ℕ) (all : List Msg) (want : List View) (r : SplitResult) : Type 0 where
    pub after : List Msg
    pub result : r ≡ split (n + length want) after
    pub views : map view (take (n + length want) after) ≡ map view (take n all) ++ want

  stop :
      (n : ℕ) (all : List Msg) (rest : List Msg)
      → n ≤ length all
      → Splits n all [] (split n (all ++ rest))
  stop n all rest h = record {
    after = all ++ rest;
    result = let e : n ≡ n + 0 = omega arith in ap (λ k. split k (all ++ rest)) e;
    views =
        let e : n + 0 ≡ n = omega arith in
        ap (λ k. map view (take k (all ++ rest))) e
        ∙ ap (map view) (take-append_le all rest n h)
        ∙ sym (append-nil (map view (take n all)));
  }

  pub split_from-read :
      (todo i n k n' : ℕ) (m : Msg) (msgs ms' : List Msg)
      → get_elem? msgs i ≡ some m
      → 0 < m.n
      → m.nn ≤ cap_of m.oob
      → get_gso (control_of m) ≡ size k
      → split_message (num_to_split get_gso m.n k) i k 0 (first_end get_gso m.n k) n msgs
        ≡ split n' ms'
      → split_from get_gso (suc todo) i n msgs
        ≡ split_from get_gso todo (i + 1) n' (zero_source i n' ms')
  unfolding split_from
  split_from-read todo i n k n' m msgs ms' at_i pos held e h =
      rw (at_i, ne→== m.n 0 (omega arith), sub_slice-prefix m.oob m.nn held, e, h, split_from)

  split_from-unread :
      (todo i n : ℕ) (m : Msg) (msgs : List Msg)
      → get_elem? msgs i ≡ some m
      → m.n ≡ 0
      → split_from get_gso (suc todo) i n msgs ≡ split n msgs
  unfolding split_from
  split_from-unread todo i n m msgs at_i z = rw (at_i, eq→== m.n 0 z, split_from)

  pub received-read :
      (m : Msg) (ms : List Msg) (k : ℕ)
      → 0 < m.n
      → get_gso (control_of m) ≡ size k
      → received get_gso (m ∷ ms) ≡ views_of m (segments m k) ++ received get_gso ms
  unfolding received
  received-read m ms k pos e = rw (ne→== m.n 0 (omega arith), e)

  pub received-unread : (m : Msg) (ms : List Msg) → m.n ≡ 0 → received get_gso (m ∷ ms) ≡ []
  unfolding received
  received-unread m ms z = rw (eq→== m.n 0 z)

  at_end :
      (i : ℕ) (all : List Msg) (m : Msg) (ms : List Msg)
      → length all ≡ i
      → get_elem? (all ++ (m ∷ ms)) i ≡ some m
  at_end i all m ms shape =
      ap (get_elem? (all ++ (m ∷ ms))) (sym shape) ∙ get_elem?-append_at all m ms

  -- a message that was read, in front of the rest
  glue :
      (n : ℕ) (all after0 : List Msg) (one want : List View) (count : ℕ) (r : SplitResult)
      → length one ≡ count
      → map view (take (n + count) after0) ≡ map view (take n all) ++ one
      → Splits (n + count) after0 want r
      → Splits n all (one ++ want) r
  glue n all after0 one want count r size_one first_views k = record {
    after = k.after;
    result = k.result ∙ ap (λ t. split t k.after) total;
    views =
        ap (λ t. map view (take t k.after)) (sym total)
        ∙ k.views
        ∙ ap (λ x. x ++ want) first_views
        ∙ append_assoc (map view (take n all)) one want;
  }
    where
      total : n + count + length want ≡ n + length (one ++ want)
      total = omega (arith, length-append one want)

  length-views_of : (m : Msg) (ss : List (List ℕ)) → length (views_of m ss) ≡ length ss
  length-views_of m [] = refl
  length-views_of m (s ∷ ss) = ap suc (length-views_of m ss)

  split_from-Splits :
      (i n : ℕ) (all ms : List Msg)
      → Fitting get_gso g i n ms
      → length all ≡ i
      → n ≤ i
      → All (HasRoom g) all
      → All (HasRoom g) ms
      → Splits n all (received get_gso ms) (split_from get_gso (length ms) i n (all ++ ms))
  split_from-Splits i n all [] fit shape le rooms more =
      unfold split_from received in stop n all [] (omega arith)
  split_from-Splits i n all (m ∷ ms) (unread _ _ _ _ z) shape le rooms more =
      rw
        (
          received-unread m ms z,
          split_from-unread (length ms) i n m (all ++ (m ∷ ms)) (at_end i all m ms shape) z,
        )
        (stop n all (m ∷ ms) (omega arith))
  split_from-Splits i n all (m ∷ ms) (read _ _ _ _ k held e pos ke f small room fit) shape le rooms
        more =
      let c : Cut i k (piece m k) g ms m f small (piece-pos m k pos) (all ++ (m ∷ [])) n
          (length (segments m k)) (segments m k)
          (split_message (num_to_split get_gso m.n k) i k 0 (first_end get_gso m.n k) n
            (all ++ (m ∷ ms))) =
        cut_lem get_gso m k pos ke f g i n all ms small shape rooms more.0 room in
      let z : Zeroed i (n + length (segments m k)) g c.after ms
          (zero_source i (n + length (segments m k)) (c.after ++ ms)) =
        zero_source-Zeroed i (n + length (segments m k)) g c.after ms
          (c.same_length ∙ omega (arith, length-append all (m ∷ []))) room c.still_rooms in
      let whole : split_from get_gso (suc (length ms)) i n (all ++ (m ∷ ms))
          ≡ split_from get_gso (length ms) (i + 1) (n + length (segments m k)) (z.after ++ ms) =
        split_from-read (length ms) i n k (n + length (segments m k)) m (all ++ (m ∷ ms))
          (c.after ++ ms) (at_end i all m ms shape) pos held e c.result
        ∙ ap (split_from get_gso (length ms) (i + 1) (n + length (segments m k))) z.result in
      rw (received-read m ms k pos e, whole)
        (glue n all z.after (views_of m (segments m k)) (received get_gso ms)
          (length (segments m k)) _ (length-views_of m (segments m k))
          (z.views
            ∙ c.views
            ∙ ap (λ x. map view x ++ views_of m (segments m k))
                (take-append_le all (m ∷ []) n (omega arith)))
          (split_from-Splits (i + 1) (n + length (segments m k)) z.after ms fit z.same_length room
            z.still_rooms more.1))

  -- Where the segments of the messages read at the tail fit in front of them, the split succeeds,
  -- and the slots from 0 on hold exactly the datagrams that were received, in order, each with its
  -- sender's address; their number is returned.
  pub split_coalesced_messages-Splits :
      (head reads : List Msg)
      → Fitting get_gso g (length head) 0 reads
      → All (HasRoom g) head
      → All (HasRoom g) reads
      → Splits 0 head
          (received get_gso reads)
          (split_coalesced_messages get_gso (head ++ reads) (length head))
  unfolding split_coalesced_messages
  split_coalesced_messages-Splits head reads fit rooms more =
      let todo : length (head ++ reads) - length head ≡ length reads =
        omega (arith, length-append head reads) in
      rw todo (split_from-Splits (length head) 0 head reads fit refl (omega arith) rooms more)
