-- ===== src/KeySign/Party.antt =====
-- handleKeySign and handleKeySign0 of tss/tss_keysign.go: what a party does with one stream on which
-- a coordinator asks for a signature. As with a generation, what the handler does not decide itself
-- is its environment; the local party of tss-lib is a function of what it is made with.
pub mod Success
pub mod Signed
pub mod Refused
pub mod OnlyReady
use tss_server.Prelude.{
  ℕ, Text, String, Bool, true, false, Option, none, some, List, [], ◌∷◌, ◌++◌, Result, ok, err,
  if◌then◌else◌,
}
use tss_server.Prelude.BigInt.{set_bytes}
use tss_server.Prelude.Int.{ℤ}
use tss_server.Proto
use tss_server.Proto.{
  TssP2PMsg, KeyData, KeySignPrepareMsg, KeySignFinishMsg, key_sign_ready, key_sign_start,
  key_sign_cancel, key_sign_finish,
}
use tss_server.Proto.Getters.{get_key_sign_prepare_msg}
use tss_server.Storage.Contract.{LocalStorage}
use tss_server.Manager.{get_key_data_by_key_id_and_key_session_id_from_storage}
use tss_server.Session.{
  TssLib, Action, reply, Event, event_loop, find_party, sorted_parties, Ending,
}

-- The signatures of tss-lib, and the JSON of its save data.
pub record SignLib : Type 1 where
  pub SaveData : Type 0
  pub SignatureData : Type 0
  pub unmarshal : Text → Result SaveData
  pub get_r : SignatureData → Text
  pub get_s : SignatureData → Text
  pub get_signature_recovery : SignatureData → Text

-- How a call ends: not yet, or with what it returns.
pub data Answer : Type 0 where
  waiting : Answer
  returned : Result KeySignFinishMsg → Answer

unfoldable pub failure : String → KeySignFinishMsg
failure e = record {
  is_success = false;
  failure_reason = e;
  signature_r = [];
  signature_s = [];
  signature_v = [];
}

module _ (lib : TssLib) (signs : SignLib) (st : LocalStorage)
    (invalid_msg_type : TssP2PMsg → String) where
  open st use {State}

  -- What signing.NewLocalParty is given: the message, the sorted parties, the local one among them,
  -- the threshold, and the save data.
  pub record Job : Type 0 where
    pub msg : ℕ
    pub parties : List lib.PartyId
    pub local_party : lib.PartyId
    pub threshold : ℤ
    pub save_data : signs.SaveData

  pub record Environment : Type 0 where
    pub local_id : Text
    pub dev : Bool
    pub key_sign_validate : Text → Text → Text → Result Text
    pub ready_error : Option String
    pub start : Result TssP2PMsg
    pub events : Job → List (Event lib signs.SignatureData)

  pub record Run : Type 0 where
    pub actions : List (Action lib)
    pub answer : Answer

  abbrev pub returns : List (Action lib) → Result KeySignFinishMsg → Run
  returns acts r = record { actions = acts; answer = returned r }

  unfoldable pub signed : signs.SignatureData → KeySignFinishMsg
  signed signature = record {
    is_success = true;
    failure_reason = "";
    signature_r = signs.get_r signature;
    signature_s = signs.get_s signature;
    signature_v = signs.get_signature_recovery signature;
  }

  unfoldable pub end_session : List (Action lib) → Ending lib signs.SignatureData → Run
  unfolding failure signed
  end_session acts Ending.waiting = record { actions = acts; answer = waiting }
  end_session acts (Ending.returned e) = returns acts (err e)
  end_session acts (Ending.peer_failed e) = returns acts (ok (failure e))
  end_session acts (Ending.ended signature) = returns acts (ok (signed signature))

  -- The session of the parties that the start message names.
  unfoldable pub run_session :
      Environment
      → KeySignPrepareMsg
      → KeyData
      → signs.SaveData
      → List Proto.PartyId
      → Option lib.PartyId
      → Run
  unfolding end_session event_loop
  run_session env m key_data save_data sign_party_id none =
      returns (reply key_sign_ready ∷ []) (err "localPartyID not found")
  run_session env m key_data save_data sign_party_id (some local_party) =
      let job : Job = record {
        msg = set_bytes m.sign_msg;
        parties = sorted_parties lib sign_party_id;
        local_party = local_party;
        threshold = key_data.threshold;
        save_data = save_data;
      } in
      let loop =
        event_loop lib (record { local_id = env.local_id; all = sign_party_id; close_ends = false })
          (env.events job) in
      end_session (reply key_sign_ready ∷ loop.0) loop.1

  -- Behind the ready message: what the second RecvMsg gives.
  unfoldable pub on_start :
      Environment → KeySignPrepareMsg → KeyData → signs.SaveData → Result TssP2PMsg → Run
  unfolding run_session find_party failure
  on_start env m key_data save_data (err e) = returns (reply key_sign_ready ∷ []) (err e)
  on_start env m key_data save_data (ok (key_sign_start s)) =
      run_session env m key_data save_data s.sign_party_id
        (find_party lib (sorted_parties lib s.sign_party_id) env.local_id)
  on_start env m key_data save_data (ok key_sign_cancel) =
      returns (reply key_sign_ready ∷ []) (ok (failure "key sign canceled"))
  on_start env m key_data save_data (ok p) =
      returns (reply key_sign_ready ∷ []) (err (invalid_msg_type p))

  -- Behind the ready message, with the error of that, and behind the JSON of the save data.
  unfoldable pub after_ready :
      Environment → KeySignPrepareMsg → KeyData → signs.SaveData → Option String → Run
  unfolding on_start
  after_ready env m key_data save_data (some e) = returns [] (err e)
  after_ready env m key_data save_data none = on_start env m key_data save_data env.start

  unfoldable pub after_json :
      Environment → KeySignPrepareMsg → KeyData → Result signs.SaveData → Run
  unfolding after_ready
  after_json env m key_data (err e) = returns [] (err e)
  after_json env m key_data (ok save_data) = after_ready env m key_data save_data env.ready_error

  unfoldable pub validate : Environment → KeySignPrepareMsg → Result (Unit {0})
  validate env m =
      if env.dev then ok tt else (elim (env.key_sign_validate m.sign_id m.key_id m.sign_msg) [
        | err e ↦ err e
        | ok signature ↦ ok tt
      ])

  unfoldable pub after_validate :
      Environment → KeySignPrepareMsg → KeyData → Result (Unit {0}) → Run
  unfolding after_json
  after_validate env m key_data (err e) = returns [] (err e)
  after_validate env m key_data (ok _) =
      after_json env m key_data (signs.unmarshal key_data.save_data_json)

  unfoldable pub after_read : Environment → KeySignPrepareMsg → Result (Option KeyData) → Run
  unfolding after_validate validate
  after_read env m (err e) = returns [] (err e)
  after_read env m (ok none) = returns [] (err "key data not found")
  after_read env m (ok (some key_data)) = after_validate env m key_data (validate env m)

  unfoldable pub handle_key_sign0 : Environment → State → KeySignPrepareMsg → Run
  unfolding after_read get_key_data_by_key_id_and_key_session_id_from_storage
  handle_key_sign0 env s m =
      after_read env m
        (get_key_data_by_key_id_and_key_session_id_from_storage st s m.key_id m.key_session_id)

  -- handleKeySign behind handleKeySign0, by what that returns.
  unfoldable pub conclude : List (Action lib) → Answer → Run
  unfolding failure
  conclude acts waiting = record { actions = acts; answer = waiting }
  conclude acts (returned (ok finish_msg)) =
      returns (acts ++ reply (key_sign_finish finish_msg) ∷ []) (ok finish_msg)
  conclude acts (returned (err e)) =
      returns (acts ++ reply (key_sign_finish (failure e)) ∷ []) (err e)

  -- `received` is what the first RecvMsg gives.
  unfoldable pub handle_key_sign : Environment → State → Result TssP2PMsg → Run
  unfolding conclude handle_key_sign0 get_key_sign_prepare_msg failure
  handle_key_sign env s (err e) = returns (reply (key_sign_finish (failure e)) ∷ []) (err e)
  handle_key_sign env s (ok p) = elim (get_key_sign_prepare_msg p) [
    | none ↦
        returns (reply (key_sign_finish (failure (invalid_msg_type p))) ∷ [])
          (err (invalid_msg_type p))
    | some m ↦ let r = handle_key_sign0 env s m in conclude r.actions r.answer
  ]
