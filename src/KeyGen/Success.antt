-- ===== src/KeyGen/Success.antt =====
-- A call of KeyGen that goes well: what it answers, and which streams it closes.
use tss_server.Prelude.{
  ℕ, ◌+◌, ◌<◌, ◌^◌, Text, true, false, List, [], ◌∷◌, ◌++◌, length, map, All, ok, eqb, ◌≡◌, refl,
  arith,
}
use tss_server.Proto.{KeyGenFinishMsg, KeyGenRequest}
use tss_server.P2p.{P2PStream}
use tss_server.P2p.StreamMap.{StreamMap, contains, store, stored, length-store}
use tss_server.P2p.StreamMap.Distinct.{
  HasDistinctRemotes, map_streams, map_streams-stored, nothing_stored, still_new,
}
use tss_server.KeyGen.{
  Event, value, Run, proceed, wait_for_ready, generated, wait_for_finish, after_wait, key_gen,
}
use tss_server.KeyGen.Loops.{same_count}

wait_for_ready-everyone :
    (n : ℕ) (m : StreamMap) (p : P2PStream) (ps : List P2PStream) (left : List (Event P2PStream))
    → HasDistinctRemotes (p ∷ ps)
    → All (λ (q : P2PStream). contains m q.remote_party_id ≡ false) (p ∷ ps)
    → length m + length ps + 1 ≡ n
    → wait_for_ready n (map value (p ∷ ps) ++ left) m ≡ proceed (stored m (p ∷ ps))
unfolding wait_for_ready
wait_for_ready-everyone n m p [] left apart (new, _) full =
    let last : eqb (length (store m p)) n ≡ true = ground (arith, length-store m p) in rw last refl
wait_for_ready-everyone n m p (q ∷ ps) left (others, apart) (new, rest) full =
    let grown : length (store m p) ≡ length m + 1 = ground (arith, length-store m p) in
    let more : eqb (length (store m p)) n ≡ false = ground arith in
    rw more (
      wait_for_ready-everyone n (store m p) q ps left apart (still_new m p (q ∷ ps) others rest)
        (omega arith))

wait_for_finish-everyone :
    (session_id : Text) (n cnt : ℕ) (ms : List KeyGenFinishMsg) (last : KeyGenFinishMsg)
    (left : List (Event KeyGenFinishMsg))
    → n < 2 ^ 31
    → All (λ (f : KeyGenFinishMsg). f.is_success ≡ true) (ms ++ last ∷ [])
    → cnt + length ms + 1 ≡ n
    → wait_for_finish session_id n cnt (map value ms ++ value last ∷ left)
      ≡ generated (record { session_id = session_id; public_key = last.public_key })
unfolding wait_for_finish
wait_for_finish-everyone session_id n cnt [] last left bound (success, _) full =
    let test : eqb (cnt + 1) n ≡ true = ground arith in
    rw (success, same_count (cnt + 1) n (omega arith) bound, test) refl
wait_for_finish-everyone session_id n cnt (f ∷ ms) last left bound (success, all) full =
    let test : eqb (cnt + 1) n ≡ false = ground arith in
    rw (success, same_count (cnt + 1) n (omega arith) bound, test)
      (wait_for_finish-everyone session_id n (cnt + 1) ms last left bound all (omega arith))

-- When every party of the request becomes ready and then reports a success, KeyGen answers with the
-- key of the last report, and it has closed the stream of each party exactly once: for n parties,
-- n < 2^31, with n streams, no two to one party, which come before an error and before the end of the
-- context, as the n reports do.
pub key_gen-generated :
    (session_id : Text) (request : KeyGenRequest) (ps : List P2PStream)
    (after_ready : List (Event P2PStream)) (ms : List KeyGenFinishMsg) (last : KeyGenFinishMsg)
    (after_last : List (Event KeyGenFinishMsg))
    → length request.all_party_id < 2 ^ 31
    → HasDistinctRemotes ps
    → length ps ≡ length request.all_party_id
    → All (λ (f : KeyGenFinishMsg). f.is_success ≡ true) (ms ++ last ∷ [])
    → length ms + 1 ≡ length request.all_party_id
    → let run : Run =
        key_gen
          (ok session_id)
          request
          (map value ps ++ after_ready)
          (map value ms ++ value last ∷ after_last) in
      (run.answer ≡ generated (record { session_id = session_id; public_key = last.public_key }))
      × (map_streams run.closed ≡ ps)
unfolding key_gen after_wait
key_gen-generated session_id request [] after_ready ms last after_last few apart full all size =
    absurd (omega arith)
key_gen-generated session_id request (p ∷ ps) after_ready ms last after_last few apart full all
      size =
    rw
      (wait_for_ready-everyone (length request.all_party_id) [] p ps after_ready apart
        (nothing_stored (p ∷ ps)) (omega arith))
      (
        wait_for_finish-everyone session_id (length request.all_party_id) 0 ms last after_last few
            all (omega arith),
        map_streams-stored [] (p ∷ ps) apart (nothing_stored (p ∷ ps)),
      )
