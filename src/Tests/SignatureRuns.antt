-- ===== src/Tests/SignatureRuns.antt =====
-- KeySign and handleKeySign together: a signature of two parties.
use tss_server.Prelude.{text, Text, true, List, [], ◌∷◌, All, ok, some, ◌≡◌, refl, arith, ◌==◌}
use tss_server.Prelude.BigInt.{set_bytes}
use tss_server.Prelude.Int.{int32, ltb_ℤ, eqb_ℤ}
use tss_server.Proto.{KeySignRequest, KeySignFinishMsg, process_update, KeySignResponse}
use tss_server.Manager.{get_latest_ready_key_data_by_key_id_from_storage, latest_ready, later_ready}
use tss_server.Manager.Keys.{IsLatestUnder}
use tss_server.P2p.{P2PStream}
use tss_server.P2p.StreamMap.{StreamMap, store}
use tss_server.Session.{Action, convert_to_tss_party_id, end, process}
use tss_server.KeySign
use tss_server.KeySign.Finish
use tss_server.KeySign.Outcome.{response}
use tss_server.KeySign.Ready.{wait_for_ready}
use tss_server.KeySign.Finish.{wait_for_finish}
use tss_server.KeySign.Run.{
  Environment, pick_value, key_sign, report_errors, report_streams, take_ready, take_finish,
  finish_msgs, prepare_msg,
}
use tss_server.KeySign.Party
use tss_server.KeySign.Party.{handle_key_sign}
use tss_server.KeySign.Party.Signed.{IsSignedFor}
use tss_server.KeySign.Signatures.{Call, run_call, IsCallOf, key_sign-IsSignedFor}
use tss_server.Tests.Storage
use tss_server.Tests.Storage.{generated, generated_key, run_storage}
use tss_server.Tests.TssLib.{all_but_last, tss_lib}
use tss_server.Tests.ManagerRuns.{generated-IsSound}
use tss_server.Tests.SigningRuns

abbrev to_party : Text → P2PStream
to_party id = record { id = text "x"; remote_party_id = id }

abbrev request : KeySignRequest
request = record { sign_id = text "i"; key_id = text "k"; sign_msg = 4 ∷ [] }

abbrev PartyCall : Type 0
PartyCall = Call tss_lib SigningRuns.signing Storage.store SigningRuns.name

abbrev call_of :
    Party.Environment tss_lib SigningRuns.signing Storage.store SigningRuns.name → PartyCall
call_of e = record {
  env = e;
  storage = generated;
  answer = ok SigningRuns.signature;
  replied = SigningRuns.signature;
}

abbrev call_a : PartyCall
call_a = call_of SigningRuns.env

abbrev call_b : PartyCall
call_b = call_of (record SigningRuns.env {
  local_id = text "b";
  events = λ job.
      process (
        process_update
          (record { from_party_id = text "a"; msg_wire_bytes = 2 ∷ []; is_broadcast = true }))
      ∷ end (4 ∷ [], 2 ∷ [], 0 ∷ [])
      ∷ [];
})

abbrev IsCall : PartyCall → Type 0
IsCall = IsCallOf tss_lib SigningRuns.signing Storage.store SigningRuns.name SigningRuns.prepare

abbrev before_reply : PartyCall → List (Action tss_lib)
before_reply c =
    all_but_last
      (run_call tss_lib SigningRuns.signing Storage.store SigningRuns.name SigningRuns.prepare
        c).actions

call_a-IsCall : IsCall call_a
unfolding handle_key_sign generated convert_to_tss_party_id set_bytes
call_a-IsCall = (refl, before_reply call_a, refl)

call_b-IsCall : IsCall call_b
unfolding handle_key_sign generated convert_to_tss_party_id set_bytes
call_b-IsCall = (refl, before_reply call_b, refl)

abbrev signers : Environment
signers = record {
  uuid = ok (text "u");
  reports =
      KeySign.Report.ready (to_party (text "a")) ∷ KeySign.Report.ready (to_party (text "b")) ∷ [];
  ready_picks = pick_value ∷ pick_value ∷ [];
  outcomes = λ m.
      Finish.Outcome.finished SigningRuns.signature
      ∷ Finish.Outcome.finished SigningRuns.signature
      ∷ [];
  finish_picks = pick_value ∷ [];
}

latest-found :
    get_latest_ready_key_data_by_key_id_from_storage Storage.store generated (text "k")
    ≡ ok (some generated_key)
unfolding get_latest_ready_key_data_by_key_id_from_storage generated run_storage latest_ready
    later_ready
latest-found = refl

handed :
    (m : StreamMap)
    → All
        (λ (f : KeySignFinishMsg).
          (c : PartyCall) × IsCallOf tss_lib SigningRuns.signing Storage.store SigningRuns.name
            (prepare_msg (text "u") request generated_key 100)
            c
          × (c.replied ≡ f))
        (finish_msgs (signers.outcomes m))
unfolding finish_msgs prepare_msg
handed m = ((call_a, call_a-IsCall, refl), ((call_b, call_b-IsCall, refl), tt))

abbrev signed : KeySignResponse
signed = response (text "u") SigningRuns.signature

answered :
    (key_sign signers
      (get_latest_ready_key_data_by_key_id_from_storage Storage.store generated (text "k"))).answer
    ≡ Finish.Finished.signed signed
unfolding key_sign wait_for_ready store take_ready report_errors report_streams int32 ltb_ℤ ◌==◌
    wait_for_finish take_finish finish_msgs eqb_ℤ
answered = rw latest-found refl

key_sign-IsSignedFor_example :
    IsLatestUnder Storage.store generated (text "k") (some generated_key)
    × (c : PartyCall) × IsCallOf tss_lib SigningRuns.signing Storage.store SigningRuns.name
        (prepare_msg (text "u") request generated_key 100)
        c
    × IsSignedFor tss_lib SigningRuns.signing Storage.store SigningRuns.name c.env c.storage
        SigningRuns.prepare c.replied
    × (signed ≡ response (text "u") c.replied)
key_sign-IsSignedFor_example =
    key_sign-IsSignedFor tss_lib SigningRuns.signing Storage.store SigningRuns.name signers
      generated (text "u") request generated_key 1 100 signed refl generated-IsSound latest-found
      refl (omega arith) handed answered
