-- ===== src/Tests/SuccessRuns.antt =====
-- Calls that go well: a party's part of a generation and of a signature, and calls of KeySign.
use tss_server.Prelude.{text, true, some, [], ◌∷◌, ◌++◌, ok, length, ◌≡◌, refl, inl, arith, ◌==◌}
use mathlib.Core.List.Permᴰ
use tss_server.Proto.{key_gen_prepare, key_gen_ready, key_gen_finish}
use tss_server.P2p.StreamMap.{StreamMap}
use tss_server.Session.{convert_to_tss_party_id, event_loop, reply}
use tss_server.KeyGen
use tss_server.KeyGen.Party.{convert_pub_key, validate, handle_key_gen}
use tss_server.Tests.KeyGenRuns
use tss_server.KeyGen.Party.Success.{finished_record, handle_key_gen-success}
use tss_server.KeySign
use tss_server.KeySign.Finish
use tss_server.KeySign.Finish.{Finished}
use tss_server.KeySign.Outcome.{response}
use tss_server.KeySign.Ready.{sign_party_ids}
use tss_server.KeySign.Run.{
  Environment, pick_value, pick_error, key_sign, report_errors, report_streams, take_ready,
}
use tss_server.KeySign.Success.{key_sign-signs}
use tss_server.KeySign.Order.{ReadyParties, signers, start_any_order}
use tss_server.Tests.SortedMap.{empty}
use tss_server.Tests.Storage
use tss_server.Tests.Storage.{generated, generated_key, generated-Stored}
use tss_server.Tests.TssLib.{tss_lib, key_lib}
use tss_server.Tests.ManagerRuns.{empty-IsSound}
use tss_server.Tests.PartyRuns
use tss_server.Tests.TogetherRuns.{empty-IsFree}
use tss_server.Tests.KeySignRuns.{key, to_party, signature, failure}

abbrev gen_run : KeyGen.Party.Run tss_lib key_lib Storage.store PartyRuns.name
gen_run =
    handle_key_gen tss_lib key_lib Storage.store PartyRuns.name PartyRuns.env empty
      (ok (key_gen_prepare PartyRuns.prepare))

handle_key_gen-success_example :
    (gen_run.answer ≡ KeyGen.Party.returned (ok KeyGenRuns.success))
    × (Storage.store.get_key_data_by_key_id_and_key_session_id gen_run.storage (text "k") (text "s")
        ≡ ok (some (finished_record Storage.store PartyRuns.prepare 5 9 (2 ∷ 7 ∷ []) (text "{}"))))
    × (gen_run.actions
        ≡ reply key_gen_ready
          ∷ ((event_loop tss_lib
                (record {
                  local_id = text "a";
                  all = PartyRuns.prepare.all_party_id;
                  close_ends = true;
                })
                PartyRuns.env.events).0
              ++ reply (key_gen_finish KeyGenRuns.success) ∷ []))
unfolding event_loop convert_to_tss_party_id convert_pub_key validate ◌==◌
handle_key_gen-success_example =
    handle_key_gen-success tss_lib key_lib Storage.store PartyRuns.name PartyRuns.env empty
      PartyRuns.prepare (2 ∷ 7 ∷ [], text "{}") (text "{}") (2 ∷ 7 ∷ []) PartyRuns.store-TakesWrites
      empty-IsSound empty-IsFree refl refl refl (inl refl) refl refl refl refl (λ t. refl)

-- All three parties are ready, of which "c" and "a" are started; one of these fails, and the other
-- signs.
abbrev all_ready : Environment
all_ready = record {
  uuid = ok (text "u");
  reports =
      KeySign.Report.ready (to_party "c")
      ∷ KeySign.Report.ready (to_party "a")
      ∷ KeySign.Report.ready (to_party "b")
      ∷ [];
  ready_picks = pick_value ∷ pick_error ∷ pick_value ∷ [];
  outcomes = λ m. Finish.Outcome.finished failure ∷ Finish.Outcome.finished signature ∷ [];
  finish_picks = pick_value ∷ pick_value ∷ [];
}

key_sign-signs_example :
    (m : StreamMap) × (length m ≡ 2)
    × ((key_sign all_ready (ok (some key))).start
        ≡ some (record { sign_party_id = sign_party_ids key.all_party_id m }))
    × ((key_sign all_ready (ok (some key))).answer
        ≡ Finished.signed (response (text "u") signature))
unfolding report_errors report_streams ◌==◌
key_sign-signs_example =
    key_sign-signs all_ready (text "u") refl key 1 refl (omega arith) refl (failure ∷ []) signature
      [] refl ((refl, (refl, tt)), ((refl, tt), (tt, tt))) (omega arith) tt (omega arith)
      (λ m size. refl) (refl, tt) refl refl tt (omega arith)

abbrev other_way_round : Environment
other_way_round = record all_ready {
  uuid = ok (text "v");
  ready_picks = pick_value ∷ pick_value ∷ [];
  reports =
      KeySign.Report.ready (to_party "a")
      ∷ KeySign.Report.ready (to_party "c")
      ∷ KeySign.Report.failed "down"
      ∷ [];
}

start_any_order_example :
    (r : ReadyParties) × ((key_sign all_ready (ok (some key))).start
      ≡ some (record { sign_party_id = signers key.all_party_id r }))
    × ((key_sign other_way_round (ok (some key))).start
        ≡ some (record { sign_party_id = signers key.all_party_id r }))
unfolding report_errors report_streams take_ready ◌==◌
start_any_order_example =
    start_any_order 1 (omega arith) key refl all_ready other_way_round (text "u") (text "v")
      (to_party "c" ∷ to_party "a" ∷ []) (to_party "a" ∷ to_party "c" ∷ []) refl refl refl refl
      ([], refl, ((refl, tt), (tt, tt)), refl) ([], refl, ((refl, tt), (tt, tt)), refl)
      (Permᴰ.swap refl refl)
