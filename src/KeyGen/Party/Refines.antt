-- ===== src/KeyGen/Party/Refines.antt =====
-- What handleKeyGen does to the storage, as steps of the life cycle of the key records.
use tss_server.Prelude.{
  Text, String, Bool-cases, inl, inr, Option, none, some, List, [], Result, ok, err, ◌≡◌, refl,
}
use tss_server.Proto.{TssP2PMsg, KeyGenPrepareMsg, Time, pending, ready, error}
use tss_server.Proto.Getters.{get_key_gen_prepare_msg, get_key_gen_start_msg}
use tss_server.Storage.Contract.{LocalStorage}
use tss_server.Manager.{check_and_set_key_gen_storage, compare_and_set_key_status_storage}
use tss_server.Manager.Lifecycle.{Reach, here, next, start, finish, fail, Reach-trans}
use tss_server.Session.{TssLib, Action, Ending, find_party, sorted_parties}
use tss_server.KeyGen.Party.{
  KeyLib, Answer, waiting, panicked, returned, Environment, written, set_error, after_write,
  after_pub_key, after_json, end_session, run_session, on_start, after_ready, after_validate,
  after_check, validate, handle_key_gen0, conclude, handle_key_gen, convert_pub_key,
}

module _ (lib : TssLib) (keys : KeyLib) (st : LocalStorage)
    (invalid_msg_type : TssP2PMsg → String) where
  open st use {State}

  abbrev Env : Type 0
  Env = Environment lib keys st invalid_msg_type

  -- What other goroutines do to the storage between the writes of a handler are steps, too.
  abbrev pub IsInterleaved : Environment lib keys st invalid_msg_type → Type 0
  IsInterleaved env =
      ((s : State) → Reach st s (env.meanwhile s)) × ((s : State) → Reach st s (env.later s))

  Reach-set_error :
      (s : State) (m : KeyGenPrepareMsg) (now : Time)
      → Reach st s (set_error lib keys st invalid_msg_type s m now)
  unfolding set_error written
  Reach-set_error s m now =
      by_write
        (compare_and_set_key_status_storage st s m.key_id m.session_id [] pending error [] now) refl
    where
      by_write :
          (r : Result State)
          → compare_and_set_key_status_storage st s m.key_id m.session_id [] pending error [] now
            ≡ r
          → Reach st s (written lib keys st invalid_msg_type s r)
      by_write (ok t) h = next here (fail m.key_id m.session_id now h)
      by_write (err e) h = here

  Reach-after_write :
      (s : State) (m : KeyGenPrepareMsg) (acts : List (Action lib)) (bytes json : Text) (now : Time)
      (r : Result State)
      → compare_and_set_key_status_storage st s m.key_id m.session_id bytes pending ready json now
        ≡ r
      → Reach st s (after_write lib keys st invalid_msg_type s acts bytes r).storage
  unfolding after_write
  Reach-after_write s m acts bytes json now (ok t) h =
      next here (finish m.key_id m.session_id bytes json now h)
  Reach-after_write s m acts bytes json now (err e) h = here

  Reach-after_pub_key :
      (env : Env) (s : State) (m : KeyGenPrepareMsg) (acts : List (Action lib)) (json : Text)
      (r : Result keys.PubKey)
      → Reach st s (after_pub_key lib keys st invalid_msg_type env s m acts json r).storage
  unfolding after_pub_key
  Reach-after_pub_key env s m acts json (err e) = here
  Reach-after_pub_key env s m acts json (ok k) =
      Reach-after_write s m acts (keys.serialize_compressed k) json env.updated_time _ refl

  Reach-after_json :
      (env : Env) (s : State) (m : KeyGenPrepareMsg) (acts : List (Action lib))
      (save_data : keys.SaveData) (r : Result Text)
      → Reach st s (after_json lib keys st invalid_msg_type env s m acts save_data r).storage
  unfolding after_json
  Reach-after_json env s m acts save_data (err e) = here
  Reach-after_json env s m acts save_data (ok json) =
      Reach-after_pub_key env s m acts json (convert_pub_key keys save_data)

  Reach-end_session :
      (env : Env) (t : State) (m : KeyGenPrepareMsg) (acts : List (Action lib))
      (ending : Ending lib keys.SaveData)
      → IsInterleaved env
      → Reach st t (end_session lib keys st invalid_msg_type env t m acts ending).storage
  unfolding end_session
  Reach-end_session env t m acts Ending.waiting others = here
  Reach-end_session env t m acts (Ending.returned e) others = here
  Reach-end_session env t m acts (Ending.peer_failed e) others =
      Reach-trans st (others.0 t) (Reach-set_error (env.meanwhile t) m env.failed_time)
  Reach-end_session env t m acts (Ending.ended save_data) others =
      Reach-trans st (others.0 t)
        (Reach-after_json env (env.meanwhile t) m acts save_data (keys.marshal save_data))

  Reach-run_session :
      (env : Env) (t : State) (m : KeyGenPrepareMsg) (o : Option lib.PartyId)
      → IsInterleaved env
      → Reach st t (run_session lib keys st invalid_msg_type env t m o).storage
  unfolding run_session
  Reach-run_session env t m none others = here
  Reach-run_session env t m (some _) others = elim (Bool-cases env.pre_params_made) [
    | inl made ↦ rw made (Reach-end_session env t m _ _ others)
    | inr none_made ↦ rw none_made here
  ]

  Reach-on_start :
      (env : Env) (t : State) (m : KeyGenPrepareMsg) (r : Result TssP2PMsg)
      → IsInterleaved env
      → Reach st t (on_start lib keys st invalid_msg_type env t m r).storage
  unfolding on_start
  Reach-on_start env t m (err e) others = here
  Reach-on_start env t m (ok p) others = elim (Bool-cases (get_key_gen_start_msg p)) [
    | inl is_start ↦ rw is_start (
        Reach-run_session env t m (find_party lib (sorted_parties lib m.all_party_id) env.local_id)
          others)
    | inr other ↦ rw other here
  ]

  Reach-after_ready :
      (env : Env) (t : State) (m : KeyGenPrepareMsg) (o : Option String)
      → IsInterleaved env
      → Reach st t (after_ready lib keys st invalid_msg_type env t m o).storage
  unfolding after_ready
  Reach-after_ready env t m (some e) others = here
  Reach-after_ready env t m none others = Reach-on_start env t m env.start others

  Reach-after_validate :
      (env : Env) (t : State) (m : KeyGenPrepareMsg) (o : Option String)
      → IsInterleaved env
      → Reach st t (after_validate lib keys st invalid_msg_type env t m o).storage
  unfolding after_validate
  Reach-after_validate env t m (some e) others = here
  Reach-after_validate env t m none others = Reach-after_ready env t m env.ready_error others

  Reach-after_check :
      (env : Env) (s : State) (m : KeyGenPrepareMsg) (r : Result State)
      → check_and_set_key_gen_storage st s m.key_id m.session_id m.threshold m.all_party_id
          env.created_time
        ≡ r
      → IsInterleaved env
      → Reach st s (after_check lib keys st invalid_msg_type env s m r).storage
  unfolding after_check
  Reach-after_check env s m (err e) h others = here
  Reach-after_check env s m (ok t) h others =
      Reach-trans st
        (next here (start m.key_id m.session_id m.threshold m.all_party_id env.created_time h))
        (Reach-after_validate env t m (validate lib keys st invalid_msg_type env m) others)

  Reach-conclude :
      (env : Env) (m : KeyGenPrepareMsg) (s : State) (acts : List (Action lib)) (a : Answer)
      → IsInterleaved env
      → Reach st s (conclude lib keys st invalid_msg_type env m s acts a).storage
  unfolding conclude
  Reach-conclude env m s acts waiting others = here
  Reach-conclude env m s acts panicked others = here
  Reach-conclude env m s acts (returned (ok f)) others = here
  Reach-conclude env m s acts (returned (err e)) others =
      Reach-trans st (others.1 s) (Reach-set_error (env.later s) m env.failed_time)

  -- Whatever handleKeyGen receives and however its call goes, what it leaves in the storage is
  -- reached by starting, finishing and failing generations, if what other goroutines do meanwhile
  -- is: the handler refines the life cycle of the key records.
  pub Reach-handle_key_gen :
      (env : Environment lib keys st invalid_msg_type) (s : State) (received : Result TssP2PMsg)
      → IsInterleaved env
      → Reach st s (handle_key_gen lib keys st invalid_msg_type env s received).storage
  unfolding handle_key_gen handle_key_gen0
  Reach-handle_key_gen env s (err e) others = here
  Reach-handle_key_gen env s (ok p) others = by_msg (get_key_gen_prepare_msg p) refl
    where
      by_msg :
          (o : Option KeyGenPrepareMsg)
          → get_key_gen_prepare_msg p ≡ o
          → Reach st s (handle_key_gen lib keys st invalid_msg_type env s (ok p)).storage
      by_msg none h = rw (h, handle_key_gen) here
      by_msg (some m) h =
          rw (h, handle_key_gen)
            (Reach-trans st (Reach-after_check env s m _ refl others)
              (Reach-conclude env m _ _ _ others))
