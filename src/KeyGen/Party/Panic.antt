-- ===== src/KeyGen/Party/Panic.antt =====
-- What a panic of handleKeyGen, on parameters that GeneratePreParams did not make, leaves behind.
use tss_server.Prelude.{
  Text, String, Bool-cases, ==_refl, inl, inr, Option, none, some, List, [], Result, ok, err,
  >>=-eq-ok, ◌≡◌, refl, ◌∙◌,
}
use tss_server.Prelude.Int.{ℤ}
use tss_server.Proto.{TssP2PMsg, PartyId, KeyData, KeyGenPrepareMsg, Time, key_gen_prepare}
use tss_server.Proto.Getters.{get_key_gen_prepare_msg, get_key_gen_start_msg}
use tss_server.Storage.{db_key}
use tss_server.Storage.Contract.{LocalStorage}
use tss_server.Manager.{check_no_live, pending_key_data, check_and_set_key_gen_storage}
use tss_server.Manager.Lifecycle.{has_prefix-db_key, Stored}
use tss_server.Session.{TssLib, Action, Ending, find_party, sorted_parties}
use tss_server.KeyGen.Party.{
  KeyLib, Answer, waiting, panicked, returned, Environment, after_write, after_pub_key, after_json,
  end_session, run_session, on_start, after_ready, after_validate, after_check, validate,
  handle_key_gen0, conclude, handle_key_gen, convert_pub_key,
}
use tss_server.KeyGen.Party.Repeated.{live-check}

module _ (lib : TssLib) (keys : KeyLib) (st : LocalStorage)
    (invalid_msg_type : TssP2PMsg → String) where
  open st use {State, IsSound}

  abbrev Env : Type 0
  Env = Environment lib keys st invalid_msg_type

  after_json-returns :
      (env : Env) (s : State) (m : KeyGenPrepareMsg) (acts : List (Action lib))
      (save_data : keys.SaveData) (r : Result Text)
      → (after_json lib keys st invalid_msg_type env s m acts save_data r).answer ≡ panicked
      → ⊥
  unfolding after_json after_pub_key after_write
  after_json-returns env s m acts save_data (err e) h = cc
  after_json-returns env s m acts save_data (ok json) h =
      by_pub_key (convert_pub_key keys save_data) h
    where
      by_write :
          (bytes : Text) (r : Result State)
          → (after_write lib keys st invalid_msg_type s acts bytes r).answer ≡ panicked
          → ⊥
      by_write bytes (err e) g = cc
      by_write bytes (ok t) g = cc

      by_pub_key :
          (r : Result keys.PubKey)
          → (after_pub_key lib keys st invalid_msg_type env s m acts json r).answer ≡ panicked
          → ⊥
      by_pub_key (err e) g = cc
      by_pub_key (ok k) g = by_write (keys.serialize_compressed k) _ g

  end_session-returns :
      (env : Env) (t : State) (m : KeyGenPrepareMsg) (acts : List (Action lib))
      (ending : Ending lib keys.SaveData)
      → (end_session lib keys st invalid_msg_type env t m acts ending).answer ≡ panicked
      → ⊥
  unfolding end_session
  end_session-returns env t m acts Ending.waiting h = cc
  end_session-returns env t m acts (Ending.returned e) h = cc
  end_session-returns env t m acts (Ending.peer_failed e) h = cc
  end_session-returns env t m acts (Ending.ended save_data) h =
      after_json-returns env (env.meanwhile t) m acts save_data (keys.marshal save_data) h

  run_session-panicked :
      (env : Env) (t : State) (m : KeyGenPrepareMsg) (o : Option lib.PartyId)
      → (run_session lib keys st invalid_msg_type env t m o).answer ≡ panicked
      → (run_session lib keys st invalid_msg_type env t m o).storage ≡ t
  unfolding run_session
  run_session-panicked env t m none h = refl
  run_session-panicked env t m (some _) h = elim (Bool-cases env.pre_params_made) [
    | inl made ↦ absurd (end_session-returns env t m _ _ (rw made at h))
    | inr none_made ↦ rw none_made refl
  ]

  on_start-panicked :
      (env : Env) (t : State) (m : KeyGenPrepareMsg) (r : Result TssP2PMsg)
      → (on_start lib keys st invalid_msg_type env t m r).answer ≡ panicked
      → (on_start lib keys st invalid_msg_type env t m r).storage ≡ t
  unfolding on_start
  on_start-panicked env t m (err e) h = refl
  on_start-panicked env t m (ok p) h = elim (Bool-cases (get_key_gen_start_msg p)) [
    | inl is_start ↦ rw is_start (
        run_session-panicked env t m
          (find_party lib (sorted_parties lib m.all_party_id) env.local_id) (rw is_start at h))
    | inr other ↦ rw other refl
  ]

  after_ready-panicked :
      (env : Env) (t : State) (m : KeyGenPrepareMsg) (o : Option String)
      → (after_ready lib keys st invalid_msg_type env t m o).answer ≡ panicked
      → (after_ready lib keys st invalid_msg_type env t m o).storage ≡ t
  unfolding after_ready
  after_ready-panicked env t m (some e) h = refl
  after_ready-panicked env t m none h = on_start-panicked env t m env.start h

  after_validate-panicked :
      (env : Env) (t : State) (m : KeyGenPrepareMsg) (o : Option String)
      → (after_validate lib keys st invalid_msg_type env t m o).answer ≡ panicked
      → (after_validate lib keys st invalid_msg_type env t m o).storage ≡ t
  unfolding after_validate
  after_validate-panicked env t m (some e) h = refl
  after_validate-panicked env t m none h = after_ready-panicked env t m env.ready_error h

  -- The PENDING record that a panic leaves.
  abbrev pub left_record : KeyGenPrepareMsg → Time → KeyData
  left_record m created_time =
      pending_key_data m.key_id m.session_id m.threshold m.all_party_id created_time

  after_check-panicked :
      (env : Env) (s : State) (m : KeyGenPrepareMsg) (r : Result State)
      → check_and_set_key_gen_storage st s m.key_id m.session_id m.threshold m.all_party_id
          env.created_time
        ≡ r
      → IsSound s
      → (after_check lib keys st invalid_msg_type env s m r).answer ≡ panicked
      → IsSound (after_check lib keys st invalid_msg_type env s m r).storage
        × Stored st
            (after_check lib keys st invalid_msg_type env s m r).storage
            (left_record m env.created_time)
  unfolding after_check check_and_set_key_gen_storage
  after_check-panicked env s m (err e) at sound h = cc
  after_check-panicked env s m (ok t) at sound h =
      let (ds, hl, h1) = >>=-eq-ok (st.get_key_data_list_by_key_id s m.key_id) _ at in
      let (u, hc, wrote) = >>=-eq-ok (check_no_live ds) _ h1 in
      let same = after_validate-panicked env t m (validate lib keys st invalid_msg_type env m) h in
      rw same (
        st.set-IsSound s t (left_record m env.created_time) sound wrote,
        st.get-set s t (left_record m env.created_time) m.key_id m.session_id wrote
            ∙ rw (==_refl (db_key m.key_id m.session_id)),
      )

  conclude-panicked :
      (env : Env) (m : KeyGenPrepareMsg) (s : State) (acts : List (Action lib)) (a : Answer)
      → (conclude lib keys st invalid_msg_type env m s acts a).answer ≡ panicked
      → (a ≡ panicked) × ((conclude lib keys st invalid_msg_type env m s acts a).storage ≡ s)
  unfolding conclude
  conclude-panicked env m s acts waiting h = cc
  conclude-panicked env m s acts panicked h = (refl, refl)
  conclude-panicked env m s acts (returned (ok f)) h = cc
  conclude-panicked env m s acts (returned (err e)) h = cc

  -- When handleKeyGen panics, from a sound storage, it leaves a sound storage with the PENDING
  -- record of its session; and in each sound storage in which that record still stands, no
  -- generation of its key id can start, whatever its session, its threshold and its parties.
  pub panicked_blocks_key :
      (env : Environment lib keys st invalid_msg_type) (s : State) (m : KeyGenPrepareMsg)
      → IsSound s
      → (handle_key_gen lib keys st invalid_msg_type env s (ok (key_gen_prepare m))).answer
        ≡ panicked
      → let t =
          (handle_key_gen lib keys st invalid_msg_type env s (ok (key_gen_prepare m))).storage in
        IsSound t
        × Stored st t (left_record m env.created_time)
        × ((u : State) (session_id : Text) (threshold : ℤ) (parties : List PartyId) (now : Time)
            → IsSound u
            → Stored st u (left_record m env.created_time)
            → (e : String) × (check_and_set_key_gen_storage st u m.key_id session_id threshold
                  parties now
                ≡ err e))
  unfolding handle_key_gen get_key_gen_prepare_msg handle_key_gen0
  panicked_blocks_key env s m sound h =
      let (answer, same) = conclude-panicked env m _ _ _ h in
      let (t_sound, stored) = after_check-panicked env s m _ refl sound answer in
      rw same (
        t_sound,
        stored,
        λ u session_id threshold parties now u_sound stands.
            live-check st u (left_record m env.created_time) [] _
              (record {
                session_id = session_id;
                key_id = m.key_id;
                threshold = threshold;
                all_party_id = parties;
                deadline = m.deadline;
              })
              now u_sound stands (inr refl) (has_prefix-db_key m.key_id m.session_id) refl,
      )
