-- ===== src/Tests/Refusing.antt =====
-- Runs on a system that refuses single messages, as if its card could not segment them.
use batchudp.Prelude.{
  ℕ, zero, suc, append-nil, ◌≡◌, ◌≤◌, ◌<◌, refl, sym, ap, true, none, List, [], ◌∷◌, ◌++◌, length,
  take, take-all, arith,
}
use batchudp.Slice.{Slice, Msg}
use batchudp.Std.{Err, eio, Outcome, ok, err}
use batchudp.Conn.{err_should_disable_udp_gso}
use batchudp.Write.{Writer, write_all, write_loop}
use batchudp.Write.Whole.{Sends}
use batchudp.Gso.{set_gso_size}
use batchudp.Coalesce.{coalesce, loop, step, start, place, finish, extend, fits}
use batchudp.Std.Send.{should_retry, send_result, retry_result}
use batchudp.Batching.Pack.{coalesce_messages, max_payload_len, has_to4, packer, chunks_len}
use batchudp.Batching.Link.{plain, attempt_offload, attempt_plain, write_batches}
use batchudp.Batching.Link.Retry.{Repeats, write_batches-Repeats}
use batchudp.Tests.Layout.{cells}
use batchudp.Tests.Packing.{room, pooled, dest}

abbrev take_batch : List Msg → List Msg → List Msg × Outcome ℕ
take_batch [] w = (w, ok 0)
take_batch (m ∷ []) w = (w, err eio)
take_batch (m ∷ n ∷ ms) w = (w ++ (m ∷ n ∷ ms), ok (length (m ∷ n ∷ ms)))

abbrev refusing : Writer (List Msg)
refusing = record {
  write_batch = λ c msgs w. take_batch msgs w;
  write_msg = λ c m w. (w ++ (m ∷ []), none);
}

take_batch-ok :
    (msgs w : List Msg) (n : ℕ)
    → (take_batch msgs w).1 ≡ ok n
    → (n ≤ length msgs) × (0 < length msgs → 0 < n) × ((take_batch msgs w).0 ≡ w ++ take n msgs)
take_batch-ok [] w zero e = (omega arith, λ h. absurd (omega arith), sym (append-nil w))
take_batch-ok [] w (suc n) e = absurd (ground arith)
take_batch-ok (m ∷ []) w n e = absurd (ground arith)
take_batch-ok (m ∷ k ∷ ms) w n e =
    let all : length (m ∷ k ∷ ms) ≡ n = ground arith in
    (
      omega (arith, all),
      λ h. omega (arith, all),
      ap (λ x. w ++ x) (sym (take-all n (m ∷ k ∷ ms) (omega (arith, all)))),
    )

take_batch-err :
    (msgs w : List Msg) (e : Err) → (take_batch msgs w).1 ≡ err e → (take_batch msgs w).0 ≡ w
take_batch-err [] w e h = refl
take_batch-err (m ∷ []) w e h = refl
take_batch-err (m ∷ k ∷ ms) w e h = absurd (ground arith)

refusing-Sends : Sends refusing
refusing-Sends = record {
  sent = λ w. w;
  batch_ok = λ c msgs w n h. take_batch-ok msgs w n h;
  batch_err = λ c msgs w e h. take_batch-err msgs w e h;
  msg_ok = λ c m w h. refl;
  msg_err = λ c m w e h. absurd (ground arith);
}

abbrev three : Slice
three = record { bytes = 1 ∷ 2 ∷ 3 ∷ []; spare = [] }

abbrev two : Slice
two = record { bytes = 4 ∷ 5 ∷ []; spare = [] }

write_batches-Repeats_example :
    Repeats cells dest three two
      (room 0)
      (room 0)
      pooled
      pooled
      refusing
      refusing-Sends
      1
      []
      (write_batches cells refusing dest 1 (three ∷ two ∷ []) true (pooled ∷ pooled ∷ []) [])
unfolding batchudp.Slice.set_first max_payload_len has_to4
write_batches-Repeats_example =
    write_batches-Repeats cells dest three two (room 0) (room 0) pooled pooled refusing
      refusing-Sends 1 [] (omega arith) (omega arith)
      (unfold write_batches attempt_offload attempt_plain coalesce_messages coalesce loop step start
          place finish extend fits packer chunks_len set_gso_size plain write_all write_loop
          should_retry err_should_disable_udp_gso send_result retry_result in
        refl)
