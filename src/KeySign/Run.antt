-- ===== src/KeySign/Run.antt =====
-- A whole call of KeySign: what its goroutines hand over is given in the order in which they do it,
-- and the choices of the two loops' `select` as lists of picks. A pick from an empty channel is no
-- choice of `select`, and is skipped.
use tss_server.Prelude.{
  ℕ, Text, String, Bool, Option, none, some, List, [], ◌∷◌, Result, ok, err, length, eqb,
  if◌then◌else◌,
}
use tss_server.Proto.{
  KeyData, KeySignFinishMsg, KeySignRequest, KeySignPrepareMsg, KeySignStartMsg, Time,
}
use tss_server.P2p.{P2PStream}
use tss_server.P2p.StreamMap.{StreamMap}
use tss_server.KeySign.{Report, failed, ready}
use tss_server.KeySign.Ready
use tss_server.KeySign.Ready.{Wait, returned, proceed, waiting, wait_for_ready, sign_party_ids}
use tss_server.KeySign.Finish
use tss_server.KeySign.Finish.{Outcome, Finished, offer, wait_for_finish}

-- errChan and readyP2PStreamChan, when the goroutines of the parties are done. Both have room for one
-- value of each party, so that no goroutine waits to hand over.
unfoldable pub report_errors : List Report → List String
report_errors [] = []
report_errors (failed e ∷ rs) = e ∷ report_errors rs
report_errors (r ∷ rs) = report_errors rs

unfoldable pub report_streams : List Report → List P2PStream
report_streams [] = []
report_streams (ready p ∷ rs) = p ∷ report_streams rs
report_streams (r ∷ rs) = report_streams rs

-- errChan behind what the second goroutines offer it, and finishMsgChan.
unfoldable pub offer_errors : ℕ → List String → List Outcome → List String
offer_errors capacity errs [] = errs
offer_errors capacity errs (Outcome.failed e ∷ os) =
    offer_errors capacity (offer capacity errs e) os
offer_errors capacity errs (o ∷ os) = offer_errors capacity errs os

unfoldable pub finish_msgs : List Outcome → List KeySignFinishMsg
finish_msgs [] = []
finish_msgs (Outcome.finished m ∷ os) = m ∷ finish_msgs os
finish_msgs (o ∷ os) = finish_msgs os

-- ctx.Done with ctx.Err(), errChan, or the channel of what is waited for.
pub data Pick : Type 0 where
  pick_done : String → Pick
  pick_error pick_value : Pick

unfoldable pub take_ready : List Pick → List String → List P2PStream → List Ready.Event
take_ready [] errs ps = []
take_ready (pick_done e ∷ picks) errs ps = Ready.Event.done e ∷ take_ready picks errs ps
take_ready (pick_error ∷ picks) [] ps = take_ready picks [] ps
take_ready (pick_error ∷ picks) (e ∷ errs) ps = Ready.Event.error e ∷ take_ready picks errs ps
take_ready (pick_value ∷ picks) errs [] = take_ready picks errs []
take_ready (pick_value ∷ picks) errs (p ∷ ps) = Ready.Event.stream p ∷ take_ready picks errs ps

unfoldable pub take_finish : List Pick → List String → List KeySignFinishMsg → List Finish.Event
take_finish [] errs ms = []
take_finish (pick_done e ∷ picks) errs ms = Finish.Event.done e ∷ take_finish picks errs ms
take_finish (pick_error ∷ picks) [] ms = take_finish picks [] ms
take_finish (pick_error ∷ picks) (e ∷ errs) ms = Finish.Event.error e ∷ take_finish picks errs ms
take_finish (pick_value ∷ picks) errs [] = take_finish picks errs []
take_finish (pick_value ∷ picks) errs (m ∷ ms) = Finish.Event.finish m ∷ take_finish picks errs ms

-- The prepare message that every party of the key is sent.
unfoldable pub prepare_msg : Text → KeySignRequest → KeyData → Time → KeySignPrepareMsg
prepare_msg session_id request key_data deadline = record {
  sign_id = request.sign_id;
  session_id = session_id;
  key_id = request.key_id;
  key_session_id = key_data.key_session_id;
  sign_msg = request.sign_msg;
  deadline = deadline;
}

-- sync.WaitGroup: of as many goroutines as were added, those that have ended are all.
abbrev pub all_done {ℓ} : {A : Type ℓ} → List A → ℕ → Bool
all_done ended added = eqb (length ended) added

-- What the environment does in one call. `reports` has what the goroutines of the parties that have
-- ended handed over, one report for each, and `outcomes` what the second goroutines that have ended
-- did, of which one runs for each stream of the map; both in the order in which they hand over.
pub record Environment : Type 0 where
  pub uuid : Result Text
  pub reports : List Report
  pub ready_picks : List Pick
  pub outcomes : StreamMap → List Outcome
  pub finish_picks : List Pick

-- The start message, if the call came to send one, and how the call ends.
pub record Run : Type 0 where
  pub start : Option KeySignStartMsg
  pub answer : Finished

abbrev stop : String → Run
stop e = record { start = none; answer = Finished.returned e }

-- Behind the first loop. wg.Wait returns when all the second goroutines have ended.
unfoldable pub finish_run : Environment → Text → KeyData → StreamMap → Run
finish_run env session_id key_data m =
    let errs =
      offer_errors (length key_data.all_party_id) (report_errors env.reports) (env.outcomes m) in
    record {
      start = some (record { sign_party_id = sign_party_ids key_data.all_party_id m });
      answer =
          if all_done (env.outcomes m) (length m)
          then wait_for_finish session_id (length m) 0
              (take_finish env.finish_picks errs (finish_msgs (env.outcomes m)))
          else Finished.waiting;
    }

unfoldable pub after_wait : Environment → Text → KeyData → Wait → Run
unfolding finish_run
after_wait env session_id key_data (returned e) = stop e
after_wait env session_id key_data (waiting m) = record { start = none; answer = Finished.waiting }
after_wait env session_id key_data (proceed m left) = finish_run env session_id key_data m

-- wgNew.Wait returns when the goroutines of all parties of the key have ended.
unfoldable pub with_key : Environment → Text → Option KeyData → Run
unfolding after_wait
with_key env session_id none = stop "key not found from local storage"
with_key env session_id (some key_data) =
    if all_done env.reports (length key_data.all_party_id)
    then after_wait env session_id key_data (
        wait_for_ready key_data.threshold
          (take_ready env.ready_picks (report_errors env.reports) (report_streams env.reports)) [])
    else record { start = none; answer = Finished.waiting }

-- KeySign, given what getLatestReadyKeyDataByKeyIdFromStorage returns for the request's key id.
unfoldable pub key_sign : Environment → Result (Option KeyData) → Run
unfolding with_key
key_sign env key_data = elim env.uuid [
  | err e ↦ stop e
  | ok session_id ↦ elim key_data [ err e ↦ stop e | ok o ↦ with_key env session_id o ]
]
