-- ===== src/KeySign/Finish.antt =====
-- The second goroutines of KeySign, and the loop that waits for the parties' signatures.
use tss_server.Prelude.{
  ℕ, ◌+◌, Text, String, Bool, none, some, List, [], ◌∷◌, ◌++◌, Result, ok, err, length, ltb,
  if◌then◌else◌,
}
use tss_server.Prelude.Int.{int32, eqb_ℤ}
use tss_server.Proto.{TssP2PMsg, KeySignFinishMsg, KeySignResponse, key_sign_finish}
use tss_server.P2p.{Exchange}

-- What the second goroutine of one party hands over.
pub data Outcome : Type 0 where
  silent : Outcome
  failed : String → Outcome
  finished : KeySignFinishMsg → Outcome

module _ (invalid_msg_type : TssP2PMsg → String) where
  unfoldable pub start_reply : Result TssP2PMsg → Outcome
  start_reply (err e) = failed e
  start_reply (ok (key_sign_finish m)) = finished m
  start_reply (ok m) = failed (invalid_msg_type m)

  unfoldable pub start_party : Bool → Exchange → Outcome
  unfolding start_reply
  start_party done_at_start x =
      if done_at_start
      then silent
      else elim x.start_refused [ some e ↦ failed e | none ↦ start_reply x.start_reply ]

-- `select { case errChan <- err: default: }` on a channel of this capacity.
unfoldable pub offer : ℕ → List String → String → List String
offer capacity errs e = if ltb (length errs) capacity then errs ++ e ∷ [] else errs

-- What `select` takes in the last loop.
pub data Event : Type 0 where
  done : String → Event
  error : String → Event
  finish : KeySignFinishMsg → Event

-- How the last loop ends: with an error, with the signature, with a status error of the code
-- Internal on this reason, or not at all, when there is nothing more to take.
pub data Finished : Type 0 where
  returned : String → Finished
  signed : KeySignResponse → Finished
  all_failed : String → Finished
  waiting : Finished

unfoldable pub wait_for_finish : Text → ℕ → ℕ → List Event → Finished
wait_for_finish session_id parties finish_cnt [] = waiting
wait_for_finish session_id parties finish_cnt (done e ∷ es) = returned e
wait_for_finish session_id parties finish_cnt (error e ∷ es) = returned e
wait_for_finish session_id parties finish_cnt (finish m ∷ es) =
    let rest = wait_for_finish session_id parties (finish_cnt + 1) es in
    if m.is_success
    then signed (record {
      session_id = session_id;
      signature_r = m.signature_r;
      signature_s = m.signature_s;
      signature_v = m.signature_v;
    })
    else if eqb_ℤ (int32 (finish_cnt + 1)) (int32 parties)
    then all_failed m.failure_reason
    else rest
