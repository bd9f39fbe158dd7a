-- ===== src/Tests/PartyRuns.antt =====
-- The theorems on handleKeyGen at a key of two parties, of which "a" runs the handler.
use tss_server.Prelude.{ℕ, text, Text, String, true, none, [], ◌∷◌, ok, err, ◌≡◌, refl}
use tss_server.Prelude.Int.{pos}
use tss_server.Proto.{
  TssP2PMsg, PartyId, KeyData, KeyGenPrepareMsg, key_gen_prepare, key_gen_start, process_update,
  pending, ready,
}
use tss_server.Session.{convert_to_tss_party_id, out, end, process}
use tss_server.KeyGen.Party.{convert_pub_key, Environment, handle_key_gen}
use tss_server.KeyGen.Party.Settled.{TakesWrites}
use tss_server.KeyGen.Party.Report.{EndsReported, handle_key_gen-EndsReported}
use tss_server.Tests.SortedMap.{Map, empty}
use tss_server.Tests.Storage.{store, parties, run_storage, generating}
use tss_server.Manager.{
  check_and_set_key_gen_storage, check_no_live, compare_and_set_key_status_storage,
  pending_key_data,
}
use tss_server.Manager.Lifecycle.{Stored, start, Reach, here, next, Reach-IsSound}
use tss_server.KeyGen.Party.Repeated.{failed_record, repeated_prepare_fails_session}
use tss_server.Tests.TssLib.{tss_lib, key_lib}
use tss_server.Tests.ManagerRuns.{empty-IsSound}

abbrev party : String → PartyId
party id = record { id = text id; moniker = []; key = [] }

abbrev pub prepare : KeyGenPrepareMsg
prepare = record {
  session_id = text "s";
  key_id = text "k";
  threshold = pos 1;
  all_party_id = party "a" ∷ party "b" ∷ [];
  deadline = 100;
}

abbrev pub name : TssP2PMsg → String
name m = "type"

abbrev pub env : Environment tss_lib key_lib store name
env = record {
  local_id = text "a";
  dev = true;
  key_gen_validate = λ k t ps. none;
  ready_error = none;
  start = ok key_gen_start;
  pre_params_made = true;
  events =
      out (record { to = none; bytes = 1 ∷ [] })
        (λ id. record { open_error = none; send_error = none; close_error = none })
      ∷ process (
          process_update
            (record { from_party_id = text "b"; msg_wire_bytes = 2 ∷ []; is_broadcast = true }))
      ∷ end (2 ∷ 7 ∷ [], text "{}")
      ∷ [];
  notices = λ id. record { open_error = none; send_error = none; close_error = none };
  created_time = 5;
  updated_time = 9;
  failed_time = 9;
  meanwhile = λ s. s;
  later = λ s. s;
}

pub store-TakesWrites : TakesWrites store
unfolding run_storage
store-TakesWrites s d = (_, refl)

handle_key_gen-EndsReported_example :
    EndsReported tss_lib key_lib store name prepare
      (handle_key_gen tss_lib key_lib store name env empty (ok (key_gen_prepare prepare)))
unfolding handle_key_gen run_storage check_and_set_key_gen_storage check_no_live
    convert_to_tss_party_id convert_pub_key compare_and_set_key_status_storage
handle_key_gen-EndsReported_example =
    handle_key_gen-EndsReported tss_lib key_lib store name env empty prepare
      (ok (record { is_success = true; failure_reason = ""; public_key = 2 ∷ 7 ∷ [] }))
      store-TakesWrites (λ s sound. sound) (λ s sound. sound) empty-IsSound refl

abbrev generating_key : KeyData
generating_key = pending_key_data (text "k") (text "s") (pos 1) parties 5

generating_run : Reach store empty generating
unfolding generating
generating_run = next here (start (text "k") (text "s") (pos 1) parties 5 refl)

generating-IsSound : store.IsSound generating
generating-IsSound = Reach-IsSound store empty-IsSound generating_run

generating-Stored : Stored store generating generating_key
unfolding generating
generating-Stored = refl

repeated_prepare_fails_session_example :
    (t : Map) × ((handle_key_gen tss_lib key_lib store name env generating
        (ok (key_gen_prepare prepare))).storage
      ≡ t)
    × Stored store t (failed_record store generating_key 9)
    × ((pub_key json : Text) (now : ℕ)
        → compare_and_set_key_status_storage store t
            (text "k")
            (text "s")
            pub_key
            pending
            ready
            json
            now
          ≡ err "key data status not equal expect status")
repeated_prepare_fails_session_example =
    repeated_prepare_fails_session tss_lib key_lib store name env generating prepare generating_key
      generating-IsSound store-TakesWrites refl generating-Stored refl refl refl
