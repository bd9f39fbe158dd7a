-- ===== src/Tests/KeySignRuns.antt =====
-- The theorems on KeySign at a key of three parties with threshold 1, of which one cannot be reached.
use tss_server.Prelude.{
  text, String, true, false, some, [], ◌∷◌, ok, length, ◌≡◌, ◌≢◌, inl, inr, refl, arith, ◌==◌,
}
use tss_server.Prelude.Int.{pos, int32, ltb_ℤ, eqb_ℤ}
use tss_server.Proto.{KeyData, PartyId, KeySignFinishMsg, ready}
use tss_server.P2p.{P2PStream}
use tss_server.P2p.StreamMap.{StreamMap, contains, store}
use tss_server.KeySign
use tss_server.KeySign.Ready.{wait_for_ready, sign_party_ids}
use tss_server.KeySign.Finish
use tss_server.KeySign.Finish.{Finished, wait_for_finish, waiting}
use tss_server.KeySign.Outcome.{response, wait_for_finish_returns}
use tss_server.KeySign.Run.{
  Environment, pick_error, pick_value, key_sign, report_errors, report_streams, take_ready,
  take_finish, finish_msgs,
}
use tss_server.KeySign.Closing.{closed_streams}
use tss_server.KeySign.Closing.Once.{closed_streams-all}
use tss_server.P2p.StreamMap.Distinct.{map_streams}
use mathlib.Core.List.{Permᴰ}
use mathlib.Core.List.Permᴰ
use tss_server.KeySign.Calls.{start_names_quorum, unneeded_party_fails_call}

abbrev party : String → PartyId
party id = record { id = text id; moniker = []; key = [] }

abbrev pub to_party : String → P2PStream
to_party id = record { id = text "x"; remote_party_id = text id }

abbrev pub key : KeyData
key = record {
  key_id = text "k";
  key_session_id = text "s";
  threshold = pos 1;
  all_party_id = party "a" ∷ party "b" ∷ party "c" ∷ [];
  pubkey = 2 ∷ 7 ∷ [];
  status = ready;
  save_data_json = text "{}";
  created_time = 5;
  updated_time = 9;
}

abbrev pub signature : KeySignFinishMsg
signature = record {
  is_success = true;
  failure_reason = "";
  signature_r = 1 ∷ [];
  signature_s = 2 ∷ [];
  signature_v = 0 ∷ [];
}

abbrev pub failure : KeySignFinishMsg
failure = record signature { is_success = false; failure_reason = "no" }

-- "b" is down; "a" and "c" are ready, and both sign.
abbrev pub one_down : Environment
one_down = record {
  uuid = ok (text "u");
  reports =
      KeySign.Report.ready (to_party "a")
      ∷ KeySign.Report.failed "down"
      ∷ KeySign.Report.ready (to_party "c")
      ∷ [];
  ready_picks = pick_value ∷ pick_value ∷ [];
  outcomes = λ m. Finish.Outcome.finished signature ∷ Finish.Outcome.finished signature ∷ [];
  finish_picks = pick_error ∷ pick_value ∷ [];
}

abbrev both : StreamMap
both = (text "a", to_party "a") ∷ (text "c", to_party "c") ∷ []

-- What these runs compute with.
run_key_sign : Unit {0}
unfolding key_sign wait_for_ready store take_ready report_errors report_streams int32 ltb_ℤ ◌==◌
    sign_party_ids contains wait_for_finish eqb_ℤ
run_key_sign = tt

unneeded_party_fails_call_example :
    ((key_sign one_down (ok (some key))).start
      ≡ some (record { sign_party_id = sign_party_ids key.all_party_id both }))
    × ((key_sign one_down (ok (some key))).answer ≡ Finished.returned "down")
unneeded_party_fails_call_example =
    unneeded_party_fails_call one_down (text "u") refl key "down" [] (pick_value ∷ []) both [] refl
      (unfold run_key_sign in refl) refl (unfold run_key_sign in refl) refl

start_names_quorum_example : length (sign_party_ids key.all_party_id both) ≡ 2
start_names_quorum_example =
    start_names_quorum one_down (text "u") refl key 1
      (record { sign_party_id = sign_party_ids key.all_party_id both }) refl (omega arith)
      (unfold run_key_sign in ((refl, (refl, tt)), ((refl, tt), (tt, tt))))
      (unfold run_key_sign in (inl refl, (inr (inr (inl refl)), tt))) (unfold run_key_sign in refl)

wait_for_finish_returns_example :
    wait_for_finish (text "u") 2 0 (Finish.Event.finish failure ∷ Finish.Event.error "late" ∷ [])
    ≢ waiting
wait_for_finish_returns_example =
    wait_for_finish_returns (text "u") 2 (omega arith) 0
      (Finish.Event.finish failure ∷ Finish.Event.error "late" ∷ []) (omega arith) refl

-- "b" is not needed: its stream is left to the goroutine that cancels.
abbrev not_needed : Environment
not_needed = record one_down {
  reports =
      KeySign.Report.ready (to_party "a")
      ∷ KeySign.Report.ready (to_party "c")
      ∷ KeySign.Report.ready (to_party "b")
      ∷ [];
  finish_picks = pick_value ∷ [];
}

not_needed-signed :
    (key_sign not_needed (ok (some key))).answer ≡ Finished.signed (response (text "u") signature)
unfolding key_sign wait_for_ready store take_ready report_errors report_streams int32 ltb_ℤ ◌==◌
    wait_for_finish take_finish finish_msgs
not_needed-signed = refl

closed_streams-all_example :
    Permᴰ
      (closed_streams map_streams not_needed
        (text "u")
        key
        (pick_value ∷ pick_value ∷ pick_value ∷ []))
      (report_streams not_needed.reports)
closed_streams-all_example =
    closed_streams-all not_needed (text "u") refl key 1 refl (omega arith) (omega arith) map_streams
      (pick_value ∷ pick_value ∷ pick_value ∷ []) both [] (λ m. Permᴰ.refl (map_streams m)) tt
      (unfold run_key_sign in omega arith) refl
      (unfold run_key_sign in ((refl, (refl, tt)), ((refl, tt), (tt, tt))))
      (unfold run_key_sign in refl) (λ p. cc (not_needed-signed, p))
