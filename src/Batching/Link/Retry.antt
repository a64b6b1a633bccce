-- ===== src/Batching/Link/Retry.antt =====
-- The second attempt of `WriteBatchTo`, behind an attempt that has joined buffers in a message.
use batchudp.Prelude.{
  length, ℕ, ◌+◌, ◌%◌, ◌^◌, ◌≤◌, ◌≡◌, refl, sym, ap, ◌∙◌, Bool, true, false, none, some, List, [],
  ◌∷◌, ◌++◌, take, map, set, flat, leb, Option, if◌then◌else◌, arith, inl, inr, Bool-cases,
  append-nil, le→leb,
}
use batchudp.Slice.{set_first, set_first-set, Slice, len, reslice, Msg, UdpAddr, payload}
use batchudp.Unix.{Unix}
use batchudp.Gso.{set_gso_size}
use batchudp.Std.{Conn}
use batchudp.Coalesce.{coalesce, loop, step, start, place, finish, extend, fits}
use batchudp.Write.{Writer, Written, write_all, send_messages}
use batchudp.Write.Whole.{Sends, Ends, whole, part, send_messages-Ends}
use batchudp.Std.Send.{SendResult, gso_disabled, send_result, retry_result, should_retry}
use batchudp.Batching.Pack.{coalesce_messages, max_payload_len, packer, chunks_len}
use batchudp.Batching.Link.{plain, attempt_offload, attempt_plain, write_batches}

-- A message of the pool has one buffer.
abbrev pub with_one : Slice → Msg → Msg
with_one t m = record m { buffers = t ∷ [] }

module _ (u : Unix) (ua : UdpAddr) (b c t1 t2 : Slice) (m1 m2 : Msg) where
  abbrev pub two_bufs : List Slice
  two_bufs = b ∷ c ∷ []

  abbrev pub two_msgs : List Msg
  two_msgs = with_one t1 m1 ∷ with_one t2 m2 ∷ []

  -- the two buffers end in one message
  record Joined (r : Option (ℕ × List Msg)) : Type 0 where
    joined : Msg
    result : r ≡ some (1, joined ∷ with_one t2 m2 ∷ [])
    both : joined.buffers ≡ b ∷ c ∷ []

  coalesce_messages-Joined :
      len c ≤ len b
      → len c + len b ≤ max_payload_len ua
      → Joined (coalesce_messages u ua two_bufs two_msgs)
  unfolding coalesce_messages coalesce loop step start place finish extend fits packer chunks_len
  coalesce_messages-Joined shorter small =
      let in_payload : leb (len c + (len b + 0)) (max_payload_len ua) ≡ true =
        le→leb _ _ (omega (arith, small)) in
      let in_size : leb (len c) (len b) ≡ true = le→leb _ _ shorter in
      record {
        joined = record m1 {
          buffers = b ∷ c ∷ [];
          oob = set_gso_size u (reslice m1.oob 0) (len b % 2 ^ 16);
          addr = some ua;
        };
        result = rw (in_payload, in_size, loop, step, fits) refl;
        both = refl;
      }

  -- The messages of the second attempt: the first one still has both buffers.
  record Doubled (r : Option (List Msg)) : Type 0 where
    used : List Msg
    result : r ≡ some used
    all : take 2 used ≡ used
    payloads : map payload used ≡ (b.bytes ++ c.bytes) ∷ c.bytes ∷ []

  plain-Doubled :
      (r : Option (ℕ × List Msg)) (j : Joined r)
      → Doubled (plain ua two_bufs (j.joined ∷ with_one t2 m2 ∷ []))
  unfolding plain set_first
  plain-Doubled r j = record {
    used =
        record j.joined {
          buffers = set j.joined.buffers 0 b;
          addr = some ua;
          oob = reslice j.joined.oob 0;
        }
        ∷ record m2 { buffers = c ∷ []; addr = some ua; oob = reslice m2.oob 0 }
        ∷ [];
    result = rw (set_first-set j.joined.buffers b (omega (arith, ap length j.both)), plain) refl;
    all = refl;
    payloads =
        ap (λ bs. flat (map (λ (s : Slice). s.bytes) (set bs 0 b)) ∷ (c.bytes ++ []) ∷ []) j.both
        ∙ ap (λ x. (b.bytes ++ x) ∷ x ∷ []) (append-nil c.bytes);
  }

  module _ {W : Type 0} (k : Writer W) (wlaws : Sends k) (xpc : Conn) where
    open wlaws use {sent}

    write_all-Ends : (msgs : List Msg) (w : W) → Ends sent (sent w) msgs (write_all k xpc msgs w)
    write_all-Ends msgs w = unfold send_messages in send_messages-Ends k wlaws xpc (some xpc) msgs w

    -- What was written, where the second attempt has succeeded.
    abbrev pub Repeats : W → W × Bool × SendResult → Type 0
    Repeats w r =
        (first again : List Msg) × (sent r.0 ≡ (sent w ++ first) ++ again)
        × (map payload again ≡ (b.bytes ++ c.bytes) ∷ c.bytes ∷ [])

    retry-Repeats :
        (again : List Msg) (w w1 : W) (first : List Msg) (r : W × Written)
        → sent w1 ≡ sent w ++ first
        → map payload again ≡ (b.bytes ++ c.bytes) ∷ c.bytes ∷ []
        → Ends sent (sent w1) again r
        → retry_result r.1 ≡ gso_disabled none
        → Repeats w (r.0, false, retry_result r.1)
    unfolding retry_result
    retry-Repeats again w w1 first (w2, x) behind same (whole d s) h =
        (first, again, s ∙ ap (λ z. z ++ again) behind, same)
    retry-Repeats again w w1 first (w2, x) behind same (part e n d s) h = absurd (ground (arith, d))

    abbrev tried : W × Written → W × Written → W × Bool × SendResult
    tried r r2 =
        if should_retry r.1 then (r2.0, false, retry_result r2.1) else (r.0, true, send_result r.1)

    tried-Repeats :
        (ms again : List Msg) (w : W) (r r2 : W × Written)
        → Ends sent (sent w) ms r
        → map payload again ≡ (b.bytes ++ c.bytes) ∷ c.bytes ∷ []
        → Ends sent (sent r.0) again r2
        → (tried r r2).2 ≡ gso_disabled none
        → Repeats w (tried r r2)
    unfolding should_retry send_result
    tried-Repeats ms again w (w1, x) r2 (whole d s) same more h = absurd (ground (arith, d))
    tried-Repeats ms again w (w1, x) r2 (part e n d s) same more h =
        elim (Bool-cases (should_retry x)) [
          | inl retried ↦
              rw retried (retry-Repeats again w w1 (take n ms) r2 s same more (rw retried at h))
          | inr final ↦ absurd (ground (arith, d))
        ]

    -- A pool of two messages, and two datagrams that `coalesceMessages` joins, with a writer that
    -- keeps its documentation: where offload is refused and the second attempt succeeds, what the
    -- second attempt has written are two datagrams, of which the first has the bytes of both.
    pub write_batches-Repeats :
        (w : W)
        → len c ≤ len b
        → len c + len b ≤ max_payload_len ua
        → (write_batches u k ua xpc two_bufs true two_msgs w).2 ≡ gso_disabled none
        → Repeats w (write_batches u k ua xpc two_bufs true two_msgs w)
    unfolding write_batches attempt_offload attempt_plain
    write_batches-Repeats w shorter small h =
        let j : Joined (coalesce_messages u ua two_bufs two_msgs) =
          coalesce_messages-Joined shorter small in
        let d : Doubled (plain ua two_bufs (j.joined ∷ with_one t2 m2 ∷ [])) = plain-Doubled _ j in
        let r : W × Written = write_all k xpc (j.joined ∷ []) w in
        let first : attempt_offload u k ua xpc two_bufs two_msgs w
            ≡ (j.joined ∷ with_one t2 m2 ∷ [], r.0, r.1) =
          rw (j.result, attempt_offload) refl in
        let second : attempt_plain u k ua xpc two_bufs (j.joined ∷ with_one t2 m2 ∷ []) r.0
            ≡ write_all k xpc d.used r.0 =
          rw (d.result, attempt_plain) (ap (λ ms. write_all k xpc ms r.0) d.all) in
        let all : write_batches u k ua xpc two_bufs true two_msgs w
            ≡ tried r (write_all k xpc d.used r.0) =
          rw (first, second, write_batches) refl in
        rw all (
          tried-Repeats (j.joined ∷ []) d.used w r (write_all k xpc d.used r.0)
            (write_all-Ends (j.joined ∷ []) w) d.payloads (write_all-Ends d.used r.0)
            (ap (λ (x : W × Bool × SendResult). x.2) (sym all) ∙ h))
