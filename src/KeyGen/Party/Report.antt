-- ===== src/KeyGen/Party/Report.antt =====
-- What a finished call of handleKeyGen leaves in the storage, and what it reports.
use tss_server.Prelude.{
  Text, String, true, false, Bool-cases, inl, inr, Option, none, some, List, [], ◌∷◌, ◌++◌, Result,
  ok, err, if◌then◌else◌, ◌≡◌, refl,
}
use tss_server.Proto.{
  TssP2PMsg, KeyGenPrepareMsg, KeyGenFinishMsg, Time, key_gen_prepare, key_gen_ready,
  key_gen_finish, pending, ready, error,
}
use tss_server.Proto.Getters.{get_key_gen_prepare_msg, get_key_gen_start_msg}
use tss_server.Storage.Contract.{LocalStorage}
use tss_server.Manager.{check_and_set_key_gen_storage, compare_and_set_key_status_storage}
use tss_server.Manager.Lifecycle.{start, Step-IsSound}
use tss_server.Session.{others, TssLib, Action, reply, Ending, find_party, sorted_parties}
use tss_server.KeyGen.Party.{
  notify, KeyLib, Answer, waiting, panicked, returned, Environment, Run, returns, written,
  set_error, after_write, after_pub_key, after_json, end_session, run_session, on_start,
  after_ready, after_validate, after_check, validate, handle_key_gen0, conclude, handle_key_gen,
  convert_pub_key, failure,
}
use tss_server.KeyGen.Party.Settled.{TakesWrites, IsSettled, IsReady, cas-record, cas-err}

module _ (lib : TssLib) (keys : KeyLib) (st : LocalStorage)
    (invalid_msg_type : TssP2PMsg → String) where
  open st use {State, IsSound}

  -- What is reported as a success is a READY record with the public key, and nothing PENDING stands
  -- under the ids of the session.
  abbrev pub IsReported : KeyGenPrepareMsg → State → KeyGenFinishMsg → Type 0
  IsReported m s f =
      IsSettled st s m.key_id m.session_id
      × (f.is_success ≡ true → IsReady st s m.key_id m.session_id f.public_key)

  abbrev AnswerIsReported : KeyGenPrepareMsg → State → Answer → Type 0
  AnswerIsReported m s (returned (ok f)) = IsReported m s f
  AnswerIsReported m s _ = Unit {0}

  abbrev IsFaithful : KeyGenPrepareMsg → Run lib keys st invalid_msg_type → Type 0
  IsFaithful m r = IsSound r.storage × AnswerIsReported m r.storage r.answer

  IsReady-IsSettled : (s : State) (k j p : Text) → IsReady st s k j p → IsSettled st s k j
  IsReady-IsSettled s k j p (d, h, r, e) x at = cc

  pub set_error-IsSettled :
      (s : State) (m : KeyGenPrepareMsg) (now : Time)
      → TakesWrites st
      → IsSound s
      → IsSound (set_error lib keys st invalid_msg_type s m now)
        × IsSettled st (set_error lib keys st invalid_msg_type s m now) m.key_id m.session_id
  unfolding set_error written
  set_error-IsSettled s m now takes sound =
      by_write
        (compare_and_set_key_status_storage st s m.key_id m.session_id [] pending error [] now) refl
    where
      by_write :
          (r : Result State)
          → compare_and_set_key_status_storage st s m.key_id m.session_id [] pending error [] now
            ≡ r
          → IsSound (written lib keys st invalid_msg_type s r)
            × IsSettled st (written lib keys st invalid_msg_type s r) m.key_id m.session_id
      by_write (ok t) h =
          let (d, at, e, p, t_sound) =
            cas-record st s t m.key_id m.session_id [] [] error now sound h in
          (t_sound, λ x hx. cc)
      by_write (err e) h =
          (sound, cas-err st s m.key_id m.session_id [] [] error now e takes sound h)

  abbrev Env : Type 0
  Env = Environment lib keys st invalid_msg_type

  end_session-IsFaithful :
      (env : Env) (t : State) (m : KeyGenPrepareMsg) (acts : List (Action lib))
      (ending : Ending lib keys.SaveData)
      → TakesWrites st
      → ((s : State) → IsSound s → IsSound (env.meanwhile s))
      → IsSound t
      → IsFaithful m (end_session lib keys st invalid_msg_type env t m acts ending)
  unfolding end_session after_json after_pub_key after_write failure
  end_session-IsFaithful env t m acts Ending.waiting takes keeps sound = (sound, tt)
  end_session-IsFaithful env t m acts (Ending.returned e) takes keeps sound = (sound, tt)
  end_session-IsFaithful env t m acts (Ending.peer_failed e) takes keeps sound =
      let (s, settled) =
        set_error-IsSettled (env.meanwhile t) m env.failed_time takes (keeps t sound) in
      (s, (settled, λ success. cc))
  end_session-IsFaithful env t m acts (Ending.ended save_data) takes keeps sound =
      by_json (keys.marshal save_data)
    where
      s : State
      s = env.meanwhile t

      by_write :
          (bytes json : Text) (r : Result State)
          → compare_and_set_key_status_storage st s m.key_id m.session_id bytes pending ready json
              env.updated_time
            ≡ r
          → IsFaithful m (after_write lib keys st invalid_msg_type s acts bytes r)
      by_write bytes json (err e) h = (keeps t sound, tt)
      by_write bytes json (ok u) h =
          let (d, at, e, p, u_sound) =
            cas-record st s u m.key_id m.session_id bytes json ready env.updated_time
              (keeps t sound) h in
          (u_sound, (λ x hx. cc, λ success. (d, at, e, p)))

      by_pub_key :
          (json : Text) (r : Result keys.PubKey)
          → IsFaithful m (after_pub_key lib keys st invalid_msg_type env s m acts json r)
      by_pub_key json (err e) = (keeps t sound, tt)
      by_pub_key json (ok pub_key) = by_write (keys.serialize_compressed pub_key) json _ refl

      by_json :
          (r : Result Text)
          → IsFaithful m (after_json lib keys st invalid_msg_type env s m acts save_data r)
      by_json (err e) = (keeps t sound, tt)
      by_json (ok json) = by_pub_key json (convert_pub_key keys save_data)

  on_start-IsFaithful :
      (env : Env) (t : State) (m : KeyGenPrepareMsg) (r : Result TssP2PMsg)
      → TakesWrites st
      → ((s : State) → IsSound s → IsSound (env.meanwhile s))
      → IsSound t
      → IsFaithful m (on_start lib keys st invalid_msg_type env t m r)
  unfolding on_start run_session
  on_start-IsFaithful env t m (err e) takes keeps sound = (sound, tt)
  on_start-IsFaithful env t m (ok p) takes keeps sound =
      elim (get_key_gen_start_msg p)
        as (λ b. IsFaithful m (
          if b
          then run_session lib keys st invalid_msg_type env t m
              (find_party lib (sorted_parties lib m.all_party_id) env.local_id)
          else returns lib keys st invalid_msg_type t (reply key_gen_ready ∷ [])
              (err (invalid_msg_type p)))) [
                | false ↦ (sound, tt)
                | true ↦
                    in_session (find_party lib (sorted_parties lib m.all_party_id) env.local_id)
              ]
    where
      in_session :
          (o : Option lib.PartyId)
          → IsFaithful m (run_session lib keys st invalid_msg_type env t m o)
      in_session none = (sound, tt)
      in_session (some _) = elim (Bool-cases env.pre_params_made) [
        | inl made ↦ rw made (end_session-IsFaithful env t m _ _ takes keeps sound)
        | inr none_made ↦ rw none_made (sound, tt)
      ]

  handle_key_gen0-IsFaithful :
      (env : Env) (s : State) (m : KeyGenPrepareMsg)
      → TakesWrites st
      → ((s : State) → IsSound s → IsSound (env.meanwhile s))
      → IsSound s
      → IsFaithful m (handle_key_gen0 lib keys st invalid_msg_type env s m)
  unfolding handle_key_gen0 after_check after_validate after_ready
  handle_key_gen0-IsFaithful env s m takes keeps sound =
      by_check
        (check_and_set_key_gen_storage st s m.key_id m.session_id m.threshold m.all_party_id
          env.created_time)
        refl
    where
      by_ready :
          (t : State) (o : Option String)
          → IsSound t
          → IsFaithful m (after_ready lib keys st invalid_msg_type env t m o)
      by_ready t (some e) t_sound = (t_sound, tt)
      by_ready t none t_sound = on_start-IsFaithful env t m env.start takes keeps t_sound

      by_validate :
          (t : State) (o : Option String)
          → IsSound t
          → IsFaithful m (after_validate lib keys st invalid_msg_type env t m o)
      by_validate t (some e) t_sound = (t_sound, tt)
      by_validate t none t_sound = by_ready t env.ready_error t_sound

      by_check :
          (r : Result State)
          → check_and_set_key_gen_storage st s m.key_id m.session_id m.threshold m.all_party_id
              env.created_time
            ≡ r
          → IsFaithful m (after_check lib keys st invalid_msg_type env s m r)
      by_check (err e) h = (sound, tt)
      by_check (ok t) h = by_validate t (validate lib keys st invalid_msg_type env m) (
          Step-IsSound st sound
            (start m.key_id m.session_id m.threshold m.all_party_id env.created_time h))

  -- A run ends with the reply of a finish message, which is true of the storage.
  abbrev pub EndsReported : KeyGenPrepareMsg → Run lib keys st invalid_msg_type → Type 0
  EndsReported m r =
      (f : KeyGenFinishMsg) × (before : List (Action lib)) × (r.actions
        ≡ before ++ reply (key_gen_finish f) ∷ [])
      × IsReported m r.storage f

  conclude-EndsReported :
      (env : Env) (m : KeyGenPrepareMsg) (s : State) (acts : List (Action lib)) (a : Answer)
      (res : Result KeyGenFinishMsg)
      → TakesWrites st
      → ((s : State) → IsSound s → IsSound (env.later s))
      → IsSound s
      → AnswerIsReported m s a
      → (conclude lib keys st invalid_msg_type env m s acts a).answer ≡ returned res
      → EndsReported m (conclude lib keys st invalid_msg_type env m s acts a)
  unfolding conclude
  conclude-EndsReported env m s acts waiting res takes keeps sound reported h = cc
  conclude-EndsReported env m s acts panicked res takes keeps sound reported h = cc
  conclude-EndsReported env m s acts (returned (ok f)) res takes keeps sound reported h =
      (f, acts, refl, reported)
  conclude-EndsReported env m s acts (returned (err e)) res takes keeps sound reported h = (
    failure e,
    acts ++ notify lib keys st invalid_msg_type env e (others lib env.local_id m.all_party_id),
    refl,
    (
      (set_error-IsSettled (env.later s) m env.failed_time takes (keeps s sound)).1,
      unfold failure in λ success. cc,
    ),
  )

  -- When a call of handleKeyGen that received a prepare message returns, its last reply is a finish
  -- message, and no PENDING record stands under the ids of the session; if the message reports a
  -- success, a READY record with the public key of the message stands there. This is so whatever
  -- the network, tss-lib and the other goroutines do meanwhile, as long as the storage stays sound
  -- and takes every write.
  pub handle_key_gen-EndsReported :
      (env : Environment lib keys st invalid_msg_type) (s : State) (m : KeyGenPrepareMsg)
      (res : Result KeyGenFinishMsg)
      → TakesWrites st
      → ((s : State) → IsSound s → IsSound (env.meanwhile s))
      → ((s : State) → IsSound s → IsSound (env.later s))
      → IsSound s
      → (handle_key_gen lib keys st invalid_msg_type env s (ok (key_gen_prepare m))).answer
        ≡ returned res
      → EndsReported m (handle_key_gen lib keys st invalid_msg_type env s (ok (key_gen_prepare m)))
  unfolding handle_key_gen get_key_gen_prepare_msg
  handle_key_gen-EndsReported env s m res takes meanwhile_sound later_sound sound h =
      let faithful = handle_key_gen0-IsFaithful env s m takes meanwhile_sound sound in
      conclude-EndsReported env m _ _ _ res takes later_sound faithful.0 faithful.1 h
