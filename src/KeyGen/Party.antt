-- ===== src/KeyGen/Party.antt =====
-- handleKeyGen and handleKeyGen0 of tss/tss_keygen.go: what a party does with one stream on which a
-- coordinator asks for a key. What the handler does not decide itself (what it receives, the errors of
-- what it sends, the local party of tss-lib, what other goroutines do to the storage between its own
-- writes) is its environment.
pub mod Settled
pub mod Report
pub mod Repeated
pub mod Colon
pub mod Refines
pub mod Panic
pub mod Success
use tss_server.Prelude.{
  Text, String, Bool, true, false, Option, none, some, List, [], ◌∷◌, ◌++◌, Result, ok, err,
  if◌then◌else◌,
}
use tss_server.Prelude.Int.{ℤ}
use tss_server.Proto
use tss_server.Proto.{
  TssP2PMsg, KeyGenPrepareMsg, KeyGenFinishMsg, Time, key_gen_ready, key_gen_finish, process_error,
}
use tss_server.Proto.Getters.{get_key_gen_prepare_msg, get_key_gen_start_msg}
use tss_server.Storage.Contract.{LocalStorage}
use tss_server.Manager.{check_and_set_key_gen_storage, compare_and_set_key_status_storage}
use tss_server.Session.{
  TssLib, Delivery, deliver, Action, reply, send, Event, event_loop, others, find_party,
  sorted_parties, Ending,
}

-- The save data of tss-lib, its JSON, and the libraries that serialize its public key.
pub record KeyLib : Type 1 where
  pub SaveData : Type 0
  pub PubKey : Type 0
  pub marshal : SaveData → Result Text
  pub marshal_compressed : SaveData → Text
  pub parse_pub_key : Text → Result PubKey
  pub serialize_compressed : PubKey → Text

-- ConvertECDSAPubKeyToBTCECPubKey, of the public key of the save data.
unfoldable pub convert_pub_key : (keys : KeyLib) → keys.SaveData → Result keys.PubKey
convert_pub_key keys save_data = keys.parse_pub_key (keys.marshal_compressed save_data)

-- How a call ends: not yet, by a panic, or with what it returns.
pub data Answer : Type 0 where
  waiting : Answer
  panicked : Answer
  returned : Result KeyGenFinishMsg → Answer

unfoldable pub failure : String → KeyGenFinishMsg
failure e = record { is_success = false; failure_reason = e; public_key = [] }

module _ (lib : TssLib) (keys : KeyLib) (st : LocalStorage)
    (invalid_msg_type : TssP2PMsg → String) where
  open st use {State}

  -- `meanwhile` and `later` are what others do to the storage before the write of the session and
  -- before the write of a failed session; `ready_error` is the error of the ready message, and
  -- `pre_params_made` tells whether GeneratePreParams gives parameters.
  pub record Environment : Type 0 where
    pub local_id : Text
    pub dev : Bool
    pub key_gen_validate : Text → ℤ → List Proto.PartyId → Option String
    pub ready_error : Option String
    pub start : Result TssP2PMsg
    pub pre_params_made : Bool
    pub events : List (Event lib keys.SaveData)
    pub notices : Text → Delivery
    pub created_time : Time
    pub updated_time : Time
    pub failed_time : Time
    pub meanwhile : State → State
    pub later : State → State

  pub record Run : Type 0 where
    pub storage : State
    pub actions : List (Action lib)
    pub answer : Answer

  abbrev pub returns : State → List (Action lib) → Result KeyGenFinishMsg → Run
  returns s acts r = record { storage = s; actions = acts; answer = returned r }

  -- A write whose error is only logged.
  unfoldable pub written : State → Result State → State
  written s (ok t) = t
  written s (err e) = s

  -- The session's record becomes ERROR, if it is PENDING.
  unfoldable pub set_error : State → KeyGenPrepareMsg → Time → State
  unfolding written
  set_error s m now = written s (
      compare_and_set_key_status_storage st s m.key_id m.session_id [] Proto.pending Proto.error []
        now)

  -- The local party is done: behind the write, behind its public key, and behind its JSON.
  unfoldable pub after_write : State → List (Action lib) → Text → Result State → Run
  after_write s acts bytes (err e) = returns s acts (err e)
  after_write s acts bytes (ok t) =
      returns t acts (ok (record { is_success = true; failure_reason = ""; public_key = bytes }))

  unfoldable pub after_pub_key :
      Environment → State → KeyGenPrepareMsg → List (Action lib) → Text → Result keys.PubKey → Run
  unfolding after_write
  after_pub_key env s m acts json (err e) = returns s acts (err e)
  after_pub_key env s m acts json (ok pub_key) =
      let bytes = keys.serialize_compressed pub_key in
      after_write s acts bytes (
        compare_and_set_key_status_storage st s m.key_id m.session_id bytes Proto.pending
          Proto.ready json env.updated_time)

  unfoldable pub after_json :
      Environment → State → KeyGenPrepareMsg → List (Action lib) → keys.SaveData → Result Text → Run
  unfolding after_pub_key
  after_json env s m acts save_data (err e) = returns s acts (err e)
  after_json env s m acts save_data (ok json) =
      after_pub_key env s m acts json (convert_pub_key keys save_data)

  unfoldable pub end_session :
      Environment → State → KeyGenPrepareMsg → List (Action lib) → Ending lib keys.SaveData → Run
  unfolding set_error after_json failure
  end_session env t m acts Ending.waiting = record { storage = t; actions = acts; answer = waiting }
  end_session env t m acts (Ending.returned e) = returns t acts (err e)
  end_session env t m acts (Ending.peer_failed e) =
      returns (set_error (env.meanwhile t) m env.failed_time) acts (ok (failure e))
  end_session env t m acts (Ending.ended save_data) =
      after_json env (env.meanwhile t) m acts save_data (keys.marshal save_data)

  -- The session behind the start message, with the local party among the sorted ones.
  unfoldable pub run_session : Environment → State → KeyGenPrepareMsg → Option lib.PartyId → Run
  unfolding end_session event_loop
  run_session env t m none = returns t (reply key_gen_ready ∷ []) (err "localPartyID not found")
  run_session env t m (some _) =
      let loop =
        event_loop lib (record { local_id = env.local_id; all = m.all_party_id; close_ends = true })
          env.events in
      if env.pre_params_made
      then end_session env t m (reply key_gen_ready ∷ loop.0) loop.1
      else record { storage = t; actions = reply key_gen_ready ∷ []; answer = panicked }

  -- Behind the ready message: what the second RecvMsg gives.
  unfoldable pub on_start : Environment → State → KeyGenPrepareMsg → Result TssP2PMsg → Run
  unfolding run_session get_key_gen_start_msg find_party
  on_start env t m (err e) = returns t (reply key_gen_ready ∷ []) (err e)
  on_start env t m (ok p) =
      if get_key_gen_start_msg p
      then run_session env t m (find_party lib (sorted_parties lib m.all_party_id) env.local_id)
      else returns t (reply key_gen_ready ∷ []) (err (invalid_msg_type p))

  unfoldable pub validate : Environment → KeyGenPrepareMsg → Option String
  validate env m =
      if env.dev then none else env.key_gen_validate m.key_id m.threshold m.all_party_id

  -- Behind the validation, with its error, and behind the ready message, with the error of that.
  unfoldable pub after_ready : Environment → State → KeyGenPrepareMsg → Option String → Run
  unfolding on_start
  after_ready env t m (some e) = returns t [] (err e)
  after_ready env t m none = on_start env t m env.start

  unfoldable pub after_validate : Environment → State → KeyGenPrepareMsg → Option String → Run
  unfolding after_ready
  after_validate env t m (some e) = returns t [] (err e)
  after_validate env t m none = after_ready env t m env.ready_error

  unfoldable pub after_check : Environment → State → KeyGenPrepareMsg → Result State → Run
  unfolding after_validate validate
  after_check env s m (err e) = returns s [] (err e)
  after_check env s m (ok t) = after_validate env t m (validate env m)

  unfoldable pub handle_key_gen0 : Environment → State → KeyGenPrepareMsg → Run
  unfolding after_check
  handle_key_gen0 env s m = after_check env s m (
      check_and_set_key_gen_storage st s m.key_id m.session_id m.threshold m.all_party_id
        env.created_time)

  -- The error of a session, told to the other parties; an error on the way is only logged.
  unfoldable pub notify : Environment → String → List Proto.PartyId → List (Action lib)
  unfolding deliver
  notify env e [] = []
  notify env e (p ∷ ps) =
      let rest = notify env e ps in
      if (deliver lib false (env.notices p.id)).0
      then send p.id (process_error (record { error_msg = e })) ∷ rest
      else rest

  -- handleKeyGen behind handleKeyGen0, by what that returns.
  unfoldable pub conclude :
      Environment → KeyGenPrepareMsg → State → List (Action lib) → Answer → Run
  unfolding notify set_error failure others
  conclude env m s acts waiting = record { storage = s; actions = acts; answer = waiting }
  conclude env m s acts panicked = record { storage = s; actions = acts; answer = panicked }
  conclude env m s acts (returned (ok finish_msg)) =
      returns s (acts ++ reply (key_gen_finish finish_msg) ∷ []) (ok finish_msg)
  conclude env m s acts (returned (err e)) =
      returns (set_error (env.later s) m env.failed_time)
        (acts
          ++ notify env e (others lib env.local_id m.all_party_id)
          ++ reply (key_gen_finish (failure e)) ∷ [])
        (err e)

  -- `received` is what the first RecvMsg gives.
  unfoldable pub handle_key_gen : Environment → State → Result TssP2PMsg → Run
  unfolding conclude handle_key_gen0 get_key_gen_prepare_msg failure
  handle_key_gen env s (err e) = returns s (reply (key_gen_finish (failure e)) ∷ []) (err e)
  handle_key_gen env s (ok p) = elim (get_key_gen_prepare_msg p) [
    | none ↦
        returns s (reply (key_gen_finish (failure (invalid_msg_type p))) ∷ [])
          (err (invalid_msg_type p))
    | some m ↦ let r = handle_key_gen0 env s m in conclude env m r.storage r.actions r.answer
  ]
