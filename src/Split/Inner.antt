-- ===== src/Split/Inner.antt =====
-- The inner loop of `splitCoalescedMessages`: a message is cut at its segment size, and the
-- segments land in the slots from `n` on.
use batchudp.Prelude.{
  ℕ, zero, suc, ◌+◌, ◌-◌, ◌≤◌, ◌<◌, ◌≡◌, refl, sym, ap, ap₂, ◌∙◌, some, List, [], ◌∷◌, ◌++◌, length,
  get_elem?, take, drop, leb, map, min, arith, take-all, length-take, length-drop, drop-drop,
  get_elem?-append_lt, inl, inr, All, append_assoc, Bool-cases,
}
use batchudp.Prelude.Chunks.{chunks, chunks_nonempty, pos_of_chunks}
use batchudp.Slice.{len, Msg}
use batchudp.Std.Pack.{first}
use batchudp.Split.{SplitResult, split, move_segment, next_end, split_message}
use batchudp.Split.Segments.{View, view, HasRoom, Moved, move_segment-Moved}

take-min : (k j : ℕ) (xs : List ℕ) → j ≡ min k (length xs) → take j xs ≡ take k xs
take-min k j xs e = elim (Bool-cases (leb k (length xs))) [
  | inl short ↦ let q : j ≡ k = ground arith in ap (λ t. take t xs) q
  | inr long ↦ take-all j xs (ground arith) ∙ sym (take-all k xs (ground arith))
]

module _ (i gso_size c g : ℕ) (rest : List Msg) (m : Msg) (f : m.n ≤ len (first m.buffers))
    (small : m.n ≤ g) (pos : 0 < c) where
  abbrev pub received_bytes : List ℕ
  received_bytes = take m.n (first m.buffers).bytes

  abbrev pub remaining : ℕ → List (List ℕ)
  remaining start = chunks c (drop start received_bytes)

  abbrev pub views_of : List (List ℕ) → List View
  views_of = map (λ xs. (xs, m.addr))

  pub record Cut (all : List Msg) (n count : ℕ) (segs : List (List ℕ)) (r : SplitResult)
      : Type 0 where
    pub after : List Msg
    pub result : r ≡ split (n + count) (after ++ rest)
    pub same_length : length after ≡ length all
    pub still_rooms : All (HasRoom g) after
    pub views : map view (take (n + count) after) ≡ map view (take n all) ++ views_of segs
    pub source_kept : n + count ≤ i → get_elem? after i ≡ some m

  length-received : length received_bytes ≡ m.n
  length-received = omega (arith, length-take m.n (first m.buffers).bytes)

  pub record At (all : List Msg) (n start end r : ℕ) : Type 0 where
    pub shape : length all ≡ i + 1
    pub source : get_elem? all i ≡ some m
    pub rooms : All (HasRoom g) all
    pub starts : start < m.n
    pub ends : end ≡ min (start + c) m.n
    pub rounds : length (remaining start) ≡ r
    pub fits : n + r ≤ i + 1
    pub size_used : 1 < r → gso_size ≡ c

  next_end_lem :
      (ms : List Msg) (end : ℕ)
      → get_elem? ms i ≡ some m
      → gso_size ≡ c
      → next_end i end gso_size ms ≡ min (end + c) m.n
  unfolding next_end
  next_end_lem ms end h e = rw (h, next_end) (ground arith)

  split-step :
      (r n start end : ℕ) (all ms : List Msg) (n' : ℕ)
      → move_segment i start end n all ≡ split n' ms
      → split_message (suc r) i gso_size start end n all
        ≡ split_message r i gso_size end (next_end i end gso_size ms) n' ms
  unfolding split_message
  split-step r n start end all ms n' h = rw (h, split_message)

  nil_of_length : {A : Type 0} (xs : List A) → length xs ≡ 0 → xs ≡ []
  nil_of_length [] h = refl
  nil_of_length (x ∷ xs) h = absurd (omega arith)

  module _ (all : List Msg) (n start end r : ℕ) (a : At all n start end r) where
    cons_remaining :
        remaining start ≡ take (end - start) (drop start received_bytes) ∷ remaining (start + c)
    cons_remaining =
        chunks_nonempty c (drop start received_bytes) pos
          (omega (arith, length-drop start received_bytes, length-received, a.starts))
        ∙ ap₂ (λ x y. x ∷ chunks c y)
            (sym (
              take-min c (end - start) (drop start received_bytes) (
                omega
                  (arith, length-drop start received_bytes, length-received, a.starts, a.ends))))
            (drop-drop start c received_bytes)

    one_less : length (remaining (start + c)) + 1 ≡ r
    one_less = omega (arith, ap length cons_remaining, a.rounds)

    more_left : 1 < r → start + c < m.n
    more_left many = omega (
      arith,
      pos_of_chunks c (drop (start + c) received_bytes) (omega (arith, one_less)),
      length-drop (start + c) received_bytes,
      length-received,
    )

    first_move :
        Moved i n g all rest m
          (take (end - start) (drop start received_bytes))
          (move_segment i start end n (all ++ rest))
    first_move =
        move_segment-Moved i start end n g all rest m a.shape a.source
          (omega (arith, a.fits, one_less)) a.rooms (omega (arith, a.starts, a.ends))
          (omega (arith, a.ends)) f small

    next_At :
        (r' : ℕ)
        → r ≡ suc (suc r')
        → At first_move.after
            (n + 1)
            end
            (next_end i end gso_size (first_move.after ++ rest))
            (suc r')
    next_At r' two = record {
      shape = first_move.same_length ∙ a.shape;
      source = kept;
      rooms = first_move.still_rooms;
      starts = omega (arith, a.ends, more_left (omega arith));
      ends =
          next_end_lem (first_move.after ++ rest) end
            (get_elem?-append_lt first_move.after rest i
                (omega (arith, first_move.same_length, a.shape))
              ∙ kept)
            (a.size_used (omega arith));
      rounds = ap (λ s. length (remaining s)) end_eq ∙ omega (arith, one_less);
      fits = omega (arith, a.fits);
      size_used = λ _. a.size_used (omega arith);
    }
      where
        kept : get_elem? first_move.after i ≡ some m
        kept = first_move.source_kept (omega (arith, a.fits))

        end_eq : end ≡ start + c
        end_eq = omega (arith, a.ends, more_left (omega arith))

  further_lem :
      (r : ℕ) (all : List Msg) (n start end : ℕ) (a : At all n start end (suc (suc r)))
      → Cut (first_move all n start end (suc (suc r)) a).after (n + 1) (suc r) (remaining end) (
          split_message
            (suc r)
            i
            gso_size
            end
            (next_end i end gso_size ((first_move all n start end (suc (suc r)) a).after ++ rest))
            (n + 1)
            ((first_move all n start end (suc (suc r)) a).after ++ rest))
      → Cut all n
          (suc (suc r))
          (remaining start)
          (split_message (suc (suc r)) i gso_size start end n (all ++ rest))
  further_lem r all n start end a later = record {
    after = later.after;
    result =
        split-step (suc r) n start end (all ++ rest) (fm.after ++ rest) (n + 1) fm.result
        ∙ later.result
        ∙ ap (λ k. split k (later.after ++ rest)) count;
    same_length = later.same_length ∙ fm.same_length;
    still_rooms = later.still_rooms;
    views =
        ap (λ k. map view (take k later.after)) (sym count)
        ∙ later.views
        ∙ ap (λ x. x ++ views_of (remaining end)) fm.views
        ∙ append_assoc (map view (take n all)) _ _
        ∙ ap (λ x. map view (take n all) ++ views_of x)
            (ap (λ e. take (end - start) (drop start received_bytes) ∷ remaining e) end_eq
              ∙ sym (cons_remaining all n start end (suc (suc r)) a));
    source_kept = λ h. later.source_kept (omega arith);
  }
    where
      fm :
          Moved i n g all rest m
            (take (end - start) (drop start received_bytes))
            (move_segment i start end n (all ++ rest))
      fm = first_move all n start end (suc (suc r)) a

      count : n + 1 + suc r ≡ n + suc (suc r)
      count = omega arith

      end_eq : end ≡ start + c
      end_eq = omega (arith, a.ends, more_left all n start end (suc (suc r)) a (omega arith))

  pub split_message-Cut :
      (r : ℕ) (all : List Msg) (n start end : ℕ)
      → At all n start end r
      → Cut all n r (remaining start) (split_message r i gso_size start end n (all ++ rest))
  split_message-Cut zero all n start end a = absurd (omega (arith, one_less all n start end zero a))
  split_message-Cut (suc zero) all n start end a = record {
    after = fm.after;
    result =
        split-step zero n start end (all ++ rest) (fm.after ++ rest) (n + 1) fm.result
        ∙ unfold split_message in refl;
    same_length = fm.same_length;
    still_rooms = fm.still_rooms;
    views =
        fm.views
        ∙ ap (λ x. map view (take n all) ++ views_of x)
            (sym (
              cons_remaining all n start end 1 a
              ∙ ap (◌∷◌ (take (end - start) (drop start received_bytes))) (
                  nil_of_length (remaining (start + c))
                    (omega (arith, one_less all n start end 1 a)))));
    source_kept = λ h. fm.source_kept (omega arith);
  }
    where
      fm :
          Moved i n g all rest m
            (take (end - start) (drop start received_bytes))
            (move_segment i start end n (all ++ rest))
      fm = first_move all n start end 1 a
  split_message-Cut (suc (suc r)) all n start end a = further_lem r all n start end a (
      split_message-Cut (suc r) (first_move all n start end (suc (suc r)) a).after (n + 1) end
        (next_end i end gso_size ((first_move all n start end (suc (suc r)) a).after ++ rest))
        (next_At all n start end (suc (suc r)) a r refl))
