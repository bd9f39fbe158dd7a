-- ===== src/KeyGen.antt =====
-- KeyGen of tss/tss_keygen.go: the coordinator of a key generation. Its goroutines report on
-- channels without a buffer; the two loops that read these are functions of what their `select`
-- takes, in the order in which it takes it.
pub mod Loops
pub mod Unanimity
pub mod Everyone
pub mod Success
pub mod Player
pub mod Together
pub mod Party
use tss_server.Prelude.{
  ℕ, ◌+◌, Text, String, Bool, Option, none, some, List, [], ◌∷◌, Result, ok, err, length, eqb,
  if◌then◌else◌,
}
use tss_server.Prelude.Int.{int32, eqb_ℤ}
use tss_server.Proto.{
  TssP2PMsg, KeyGenFinishMsg, KeyGenRequest, KeyGenResponse, KeyGenPrepareMsg, Time, key_gen_ready,
  key_gen_finish,
}
use tss_server.P2p.{P2PStream, Exchange}
use tss_server.P2p.StreamMap.{StreamMap, store}

-- What the first goroutine of one party hands over. It closes its stream unless that is ready.
pub data Report : Type 0 where
  failed : String → Report
  ready : P2PStream → Report

module _ (invalid_msg_type : TssP2PMsg → String) where
  unfoldable pub prepare_reply : P2PStream → Result TssP2PMsg → Report
  prepare_reply p2p_stream (err e) = failed e
  prepare_reply p2p_stream (ok key_gen_ready) = ready p2p_stream
  prepare_reply p2p_stream (ok (key_gen_finish m)) = failed m.failure_reason
  prepare_reply p2p_stream (ok m) = failed (invalid_msg_type m)

  unfoldable pub prepare_party : Exchange → Report
  unfolding prepare_reply
  prepare_party x = elim x.opened [
    | err e ↦ failed e
    | ok p2p_stream ↦ elim x.prepare_refused [
      | some e ↦ failed e
      | none ↦ prepare_reply p2p_stream x.prepare_reply
    ]
  ]

-- The prepare message that every party of the request is sent.
unfoldable pub prepare_msg : Text → KeyGenRequest → Time → KeyGenPrepareMsg
prepare_msg session_id request deadline = record {
  session_id = session_id;
  key_id = request.key_id;
  threshold = request.threshold;
  all_party_id = request.all_party_id;
  deadline = deadline;
}

-- What the second goroutine of one party hands over.
pub data Outcome : Type 0 where
  failed : String → Outcome
  finished : KeyGenFinishMsg → Outcome

module _ (invalid_msg_type : TssP2PMsg → String) where
  unfoldable pub start_reply : Result TssP2PMsg → Outcome
  start_reply (err e) = Outcome.failed e
  start_reply (ok (key_gen_finish m)) = finished m
  start_reply (ok m) = Outcome.failed (invalid_msg_type m)

  unfoldable pub start_party : Exchange → Outcome
  unfolding start_reply
  start_party x = elim x.start_refused [
    | some e ↦ Outcome.failed e
    | none ↦ start_reply x.start_reply
  ]

-- What the `select` of a loop takes: the end of the context, an error, or what is waited for.
pub data Event (A : Type 0) : Type 0 where
  done : String → Event A
  error : String → Event A
  value : A → Event A

-- The first loop returns an error, goes on with the map of the ready streams, or waits; at a return
-- the map is the one whose streams are closed.
pub data Wait : Type 0 where
  returned : String → StreamMap → Wait
  proceed : StreamMap → Wait
  waiting : StreamMap → Wait

unfoldable pub wait_for_ready : ℕ → List (Event P2PStream) → StreamMap → Wait
wait_for_ready parties [] m = waiting m
wait_for_ready parties (done e ∷ es) m = returned e m
wait_for_ready parties (error e ∷ es) m = returned e m
wait_for_ready parties (value p ∷ es) m =
    let m' = store m p in
    let rest = wait_for_ready parties es m' in if eqb (length m') parties then proceed m' else rest

-- How the last loop ends, or that it waits.
pub data Finished : Type 0 where
  returned : String → Finished
  generated : KeyGenResponse → Finished
  waiting : Finished

unfoldable pub wait_for_finish : Text → ℕ → ℕ → List (Event KeyGenFinishMsg) → Finished
wait_for_finish session_id parties finish_cnt [] = waiting
wait_for_finish session_id parties finish_cnt (done e ∷ es) = Finished.returned e
wait_for_finish session_id parties finish_cnt (error e ∷ es) = Finished.returned e
wait_for_finish session_id parties finish_cnt (value m ∷ es) =
    let rest = wait_for_finish session_id parties (finish_cnt + 1) es in
    if m.is_success
    then (if eqb_ℤ (int32 (finish_cnt + 1)) (int32 parties)
        then generated (record { session_id = session_id; public_key = m.public_key })
        else rest)
    else Finished.returned m.failure_reason

-- A call of KeyGen: the error or the response, if it comes to one, and the streams that it closes
-- when it returns.
pub record Run : Type 0 where
  pub answer : Finished
  pub closed : StreamMap

unfoldable pub after_wait : Text → KeyGenRequest → List (Event KeyGenFinishMsg) → Wait → Run
after_wait session_id request finishes (returned e m) = record {
  answer = Finished.returned e;
  closed = m;
}
after_wait session_id request finishes (waiting m) = record {
  answer = Finished.waiting;
  closed = [];
}
after_wait session_id request finishes (proceed m) = record {
  answer = wait_for_finish session_id (length request.all_party_id) 0 finishes;
  closed = m;
}

-- `readies` and `finishes` are what the two loops take.
unfoldable pub key_gen :
    Result Text → KeyGenRequest → List (Event P2PStream) → List (Event KeyGenFinishMsg) → Run
unfolding after_wait
key_gen uuid request readies finishes = elim uuid [
  | err e ↦ record { answer = Finished.returned e; closed = [] }
  | ok session_id ↦
      after_wait session_id request finishes
        (wait_for_ready (length request.all_party_id) readies [])
]
