-- ===== src/Coalesce/Progress.antt =====
-- A message while it is filled: which datagrams it holds so far, and that the kernel will cut it
-- at the same places.
use batchudp.Prelude.{
  ℕ, ◌+◌, ◌^◌, ◌%◌, ◌≤◌, ◌<◌, ◌≡◌, refl, sym, ap, ◌∙◌, Bool, true, false, List, [], ◌∷◌, ◌++◌,
  length, some, if◌then◌else◌, inl, inr, append_assoc, append-nil, arith, Bool-cases, ltb,
  length-append, ne→==, ltb→lt, flat,
}
use batchudp.Prelude.Chunks.{chunks, chunks-append, chunks-one, flat-snoc}
use batchudp.Slice.{Slice, len, Msg, UdpAddr, payload}
use batchudp.Coalesce.{Packer, tag, fits}
use batchudp.Coalesce.Laws.{Lawful, datagrams, IsSendable}
use batchudp.Coalesce.Loop.{at, close}

module _ (p : Packer) (set_gso : Slice → ℕ → Slice) (gso_of : Slice → ℕ) (dest : UdpAddr)
    (laws : Lawful p set_gso gso_of dest) (max_payload total : ℕ)
    (limit : max_payload < 2 ^ 16) where
  open laws use {IsBlank, IsReady}

  -- `seen` are the datagrams in `m`; `k`, `d` and `e` are `gsoSize`, `dgramCnt` and `endBatch`.
  pub record Holds (m : Msg) (seen : List (List ℕ)) (k d : ℕ) (e : Bool) : Type 0 where
    pub ready : IsReady m
    pub dest_set : m.addr ≡ some dest
    pub content : payload m ≡ flat seen
    pub counted : length seen ≡ d
    pub some_seen : 0 < d
    pub few : d ≤ 64
    pub size_pos : 0 < k
    pub small : 1 < d → length (payload m) ≤ max_payload
    pub first_in : k ≤ length (payload m)
    pub cut : chunks k (flat seen) ≡ seen
    pub open_end :
        e ≡ false → (rest : List ℕ) → chunks k (flat seen ++ rest) ≡ seen ++ chunks k rest

  pub begin-Holds :
      (m : Msg) (b : Slice)
      → IsBlank m
      → 0 < len b
      → Holds (p.begin m b) (b.bytes ∷ []) (len b) 1 false
  begin-Holds m b blank pos = record {
    ready = laws.begin-IsReady m b blank;
    dest_set = laws.addr-begin m b;
    content = laws.payload-begin m b blank ∙ sym (append-nil b.bytes);
    counted = refl;
    some_seen = omega arith;
    few = omega arith;
    size_pos = pos;
    small = λ h. absurd (omega arith);
    first_in = omega (arith, ap length (laws.payload-begin m b blank));
    cut = ap (chunks (len b)) (append-nil b.bytes) ∙ chunks-one (len b) b.bytes pos (omega arith);
    open_end = λ _ rest.
        ap (λ x. chunks (len b) (x ++ rest)) (append-nil b.bytes) ∙ chunks-append b.bytes rest pos;
  }

  -- The conditions of the loop, read off.
  pub record Fits (m : Msg) (k d : ℕ) (e : Bool) (b : Slice) : Type 0 where
    pub total_small : len b + p.base_len m ≤ max_payload
    pub not_larger : len b ≤ k
    pub room : p.has_room m b ≡ true
    pub few : d < 64
    pub going : e ≡ false

  pub fits-Fits :
      (closed : List Msg) (m : Msg) (rest : List Msg) (k d : ℕ) (e : Bool) (b : Slice)
      → fits p set_gso max_payload total (at closed m rest k d e) m b ≡ true
      → Fits m k d e b
  unfolding fits
  fits-Fits closed m rest k d e b h = ground arith

  chunks_joined :
      (k : ℕ) (seen : List (List ℕ)) (t : List ℕ)
      → 0 < length t
      → length t ≤ k
      → ((rest : List ℕ) → chunks k (flat seen ++ rest) ≡ seen ++ chunks k rest)
      → chunks k (flat (seen ++ (t ∷ []))) ≡ seen ++ (t ∷ [])
  chunks_joined k seen t pos small fills =
      ap (chunks k) (flat-snoc seen t) ∙ fills t ∙ ap (◌++◌ seen) (chunks-one k t pos small)

  chunks_full :
      (k : ℕ) (seen : List (List ℕ)) (t rest : List ℕ)
      → 0 < length t
      → length t ≡ k
      → ((rest : List ℕ) → chunks k (flat seen ++ rest) ≡ seen ++ chunks k rest)
      → chunks k (flat (seen ++ (t ∷ [])) ++ rest) ≡ (seen ++ (t ∷ [])) ++ chunks k rest
  chunks_full k seen t rest pos full fills =
      ap (λ x. chunks k (x ++ rest)) (flat-snoc seen t)
      ∙ ap (chunks k) (append_assoc (flat seen) t rest)
      ∙ fills (t ++ rest)
      ∙ ap (◌++◌ seen) (
          ap (λ n. chunks n (t ++ rest)) (sym full)
          ∙ chunks-append t rest pos
          ∙ ap (λ n. t ∷ chunks n rest) full)
      ∙ sym (append_assoc seen (t ∷ []) (chunks k rest))

  pub join-Holds :
      (m : Msg) (seen : List (List ℕ)) (k d : ℕ) (e : Bool) (b : Slice)
      → Holds m seen k d e
      → Fits m k d e b
      → 0 < len b
      → Holds (p.join m b) (seen ++ (b.bytes ∷ [])) k (d + 1) (if ltb (len b) k then true else e)
  join-Holds m seen k d e b h f pos = record {
    ready = laws.join-IsReady m b h.ready f.room;
    dest_set = laws.addr-join m b ∙ h.dest_set;
    content = grown ∙ ap (λ x. x ++ b.bytes) h.content ∙ sym (flat-snoc seen b.bytes);
    counted = omega (arith, length-append seen (b.bytes ∷ []), h.counted);
    some_seen = omega arith;
    few = omega (arith, f.few);
    size_pos = h.size_pos;
    small = λ _. total_len;
    first_in = size_le;
    cut = chunks_joined k seen b.bytes pos f.not_larger (h.open_end f.going);
    open_end = λ open_still rest.
        chunks_full k seen b.bytes rest pos (full open_still) (h.open_end f.going);
  }
    where
      grown : payload (p.join m b) ≡ payload m ++ b.bytes
      grown = laws.payload-join m b h.ready f.room

      total_len : length (payload (p.join m b)) ≤ max_payload
      total_len = omega (
        arith,
        ap length grown,
        length-append (payload m) b.bytes,
        laws.base_len_lem m h.ready,
        f.total_small,
      )

      size_le : k ≤ length (payload (p.join m b))
      size_le = omega (arith, ap length grown, length-append (payload m) b.bytes, h.first_in)

      full : (if ltb (len b) k then true else e) ≡ false → length b.bytes ≡ k
      full o = ground (arith, f.not_larger)

  flat_single : (seen : List (List ℕ)) → length seen ≡ 1 → flat seen ∷ [] ≡ seen
  flat_single [] q = absurd (omega arith)
  flat_single (t ∷ []) q = ap (λ x. x ∷ []) (append-nil t)
  flat_single (t ∷ u ∷ r) q = absurd (omega arith)

  module _ (m : Msg) (seen : List (List ℕ)) (k d : ℕ) (e : Bool) (h : Holds m seen k d e) where
    tagged-datagrams : 1 < d → datagrams gso_of (tag set_gso k m) ≡ seen
    tagged-datagrams many =
        rw (read, ne→== k 0 (omega (arith, h.size_pos))) (ap (chunks k) h.content ∙ h.cut)
      where
        fits16 : k < 2 ^ 16
        fits16 = omega (arith, h.small many, h.first_in)

        read : gso_of (set_gso m.oob (k % 2 ^ 16)) ≡ k
        read = ap (λ n. gso_of (set_gso m.oob n)) (omega arith) ∙ laws.gso_of-tag m k h.ready fits16

    plain-datagrams : d ≡ 1 → datagrams gso_of m ≡ seen
    plain-datagrams one =
        rw (laws.gso_of-ready m h.ready)
          (ap (λ x. x ∷ []) h.content ∙ flat_single seen (h.counted ∙ one))

    -- Closing a message: the kernel will cut it into exactly what it holds.
    pub closed-datagrams : datagrams gso_of (close p set_gso max_payload total k d m) ≡ seen
    closed-datagrams = elim (Bool-cases (ltb 1 d)) [
      | inl many ↦ rw many (tagged-datagrams (ltb→lt 1 d many))
      | inr one ↦ rw one (plain-datagrams (ground (arith, h.some_seen)))
    ]

    pub closed-IsSendable :
        IsSendable gso_of dest max_payload (close p set_gso max_payload total k d m)
    closed-IsSendable = record {
      goes_to = ground (arith, h.dest_set);
      few = omega (arith, ap length closed-datagrams, h.counted, h.few);
      small = λ many.
          let fit : length (payload m) ≤ max_payload =
            h.small (omega (arith, ap length closed-datagrams, h.counted)) in
          ground arith;
    }
