-- ===== src/KeyGen/Party/Success.antt =====
-- A call of handleKeyGen that goes well: what it stores, and what it replies.
use tss_server.Prelude.{
  Text, String, true, ==_refl, none, some, List, [], ◌∷◌, ◌++◌, All-Memᴰ_intro, ok, ◌>>=◌, ◌≡◌,
  refl, ◌∙◌, has_prefix,
}
use tss_server.Prelude.Int.{ℤ}
use tss_server.Proto.{
  TssP2PMsg, KeyData, KeyGenPrepareMsg, KeyGenFinishMsg, PartyId, Time, key_gen_prepare,
  key_gen_start, key_gen_ready, key_gen_finish, pending, ready,
}
use tss_server.Proto.Getters.{get_key_gen_prepare_msg, get_key_gen_start_msg}
use tss_server.Storage.{db_key, key_prefix}
use tss_server.Storage.Contract.{LocalStorage}
use tss_server.Manager.{
  pending_key_data, check_and_set_key_gen_storage, compare_and_set,
  compare_and_set_key_status_storage,
}
use tss_server.Manager.Lifecycle.{IsLive, Stored, check_no_live-ok_of}
use tss_server.P2p.StreamMap.{HasId}
use tss_server.Session.{TssLib, Ending, event_loop, reply}
use tss_server.Session.Parties.{find_party-sorted}
use tss_server.KeyGen.Party.{
  KeyLib, Environment, Run, returned, convert_pub_key, after_write, after_pub_key, after_json,
  end_session, run_session, on_start, after_ready, validate, after_validate, after_check,
  handle_key_gen0, conclude, handle_key_gen,
}
use tss_server.KeyGen.Party.Settled.{TakesWrites}

module _ (st : LocalStorage) where
  open st use {State, IsSound}

  -- No record that the key id selects is live.
  abbrev pub IsFree : State → Text → Type 0
  IsFree s key_id =
      (d : KeyData)
      → Stored st s d
      → has_prefix (db_key d.key_id d.key_session_id) (key_prefix key_id) ≡ true
      → ¬ IsLive d

  -- A generation of a free key id starts, and its PENDING record is stored.
  started :
      (s : State) (key_id session_id : Text) (threshold : ℤ) (parties : List PartyId) (now : Time)
      → TakesWrites st
      → IsSound s
      → IsFree s key_id
      → (t : State) × (check_and_set_key_gen_storage st s key_id session_id threshold parties now
          ≡ ok t)
        × IsSound t
        × (st.get_key_data_by_key_id_and_key_session_id t key_id session_id
            ≡ ok (some (pending_key_data key_id session_id threshold parties now)))
  unfolding check_and_set_key_gen_storage
  started s key_id session_id threshold parties now takes sound free =
      let d = pending_key_data key_id session_id threshold parties now in
      let (ds, listed) = st.list_total s key_id sound in
      let (t, wrote) = takes s d in
      let none_live = check_no_live-ok_of ds (
        All-Memᴰ_intro (λ (x : KeyData). ¬ IsLive x) ds
          (λ x at.
            let (stored, fits) = st.list_stored s key_id ds x sound listed at in
            free x stored fits)) in
      (
        t,
        rw (listed, ◌>>=◌, none_live, ◌>>=◌) wrote,
        st.set-IsSound s t d sound wrote,
        st.get-set s t d key_id session_id wrote ∙ rw (==_refl (db_key key_id session_id)),
      )

  -- The record of a generation that is done.
  abbrev pub finished_record : KeyGenPrepareMsg → Time → Time → Text → Text → KeyData
  finished_record m created updated pub_key json =
      record (pending_key_data m.key_id m.session_id m.threshold m.all_party_id created) {
        status = ready;
        save_data_json = json;
        updated_time = updated;
        pubkey = pub_key;
      }

  finished :
      (s : State) (m : KeyGenPrepareMsg) (created updated : Time) (pub_key json : Text)
      → TakesWrites st
      → st.get_key_data_by_key_id_and_key_session_id s m.key_id m.session_id
        ≡ ok (some (pending_key_data m.key_id m.session_id m.threshold m.all_party_id created))
      → (t : State) × (compare_and_set_key_status_storage st s m.key_id m.session_id pub_key pending
            ready json updated
          ≡ ok t)
        × (st.get_key_data_by_key_id_and_key_session_id t m.key_id m.session_id
            ≡ ok (some (finished_record m created updated pub_key json)))
  unfolding compare_and_set_key_status_storage compare_and_set
  finished s m created updated pub_key json takes at =
      let n = finished_record m created updated pub_key json in
      let (t, wrote) = takes s n in
      (
        t,
        rw (at, ◌>>=◌) wrote,
        st.get-set s t n m.key_id m.session_id wrote ∙ rw (==_refl (db_key m.key_id m.session_id)),
      )

module _ (lib : TssLib) (keys : KeyLib) (st : LocalStorage)
    (invalid_msg_type : TssP2PMsg → String) where
  open st use {State, IsSound}

  -- When a prepare message for a free key id comes to a party of its list, the validator takes it,
  -- the start message follows, the local party of tss-lib comes to its end, and nobody else touches
  -- the record of the session, then handleKeyGen replies that it is ready, what its session makes, and a
  -- success with the public key, which it returns, and the record is READY, with the save data and the public key: where the storage
  -- is sound and takes every write, and the save data can be marshalled and its public key
  -- converted.
  pub handle_key_gen-success :
      (env : Environment lib keys st invalid_msg_type) (s : State) (m : KeyGenPrepareMsg)
      (save_data : keys.SaveData) (json : Text) (pub_key : keys.PubKey)
      → TakesWrites st
      → IsSound s
      → IsFree st s m.key_id
      → validate lib keys st invalid_msg_type env m ≡ none
      → env.ready_error ≡ none
      → env.start ≡ ok key_gen_start
      → HasId env.local_id m.all_party_id
      → env.pre_params_made ≡ true
      → (event_loop lib
          (record { local_id = env.local_id; all = m.all_party_id; close_ends = true })
          env.events).1
        ≡ Ending.ended save_data
      → keys.marshal save_data ≡ ok json
      → convert_pub_key keys save_data ≡ ok pub_key
      → ((t : State)
          → st.get_key_data_by_key_id_and_key_session_id (env.meanwhile t) m.key_id m.session_id
            ≡ st.get_key_data_by_key_id_and_key_session_id t m.key_id m.session_id)
      → let run : Run lib keys st invalid_msg_type =
          handle_key_gen lib keys st invalid_msg_type env s (ok (key_gen_prepare m)) in
        let key = keys.serialize_compressed pub_key in
        let told : KeyGenFinishMsg = record {
          is_success = true;
          failure_reason = "";
          public_key = key;
        } in
        (run.answer ≡ returned (ok told))
        × (st.get_key_data_by_key_id_and_key_session_id run.storage m.key_id m.session_id
            ≡ ok (some (finished_record st m env.created_time env.updated_time key json)))
        × (run.actions
            ≡ reply key_gen_ready
              ∷ ((event_loop lib
                    (record { local_id = env.local_id; all = m.all_party_id; close_ends = true })
                    env.events).0
                  ++ reply (key_gen_finish told) ∷ []))
  unfolding handle_key_gen get_key_gen_prepare_msg handle_key_gen0 conclude after_check
      after_validate after_ready on_start get_key_gen_start_msg run_session end_session after_json
      after_pub_key after_write
  handle_key_gen-success env s m save_data json pub_key takes sound free valid no_error starts among
        made loops marshalled converted alone =
      let (t, wrote, t_sound, at) =
        started st s m.key_id m.session_id m.threshold m.all_party_id env.created_time takes sound
          free in
      let (p, found) = find_party-sorted lib m.all_party_id env.local_id among in
      let (u, done, read) =
        finished st (env.meanwhile t) m env.created_time env.updated_time
          (keys.serialize_compressed pub_key) json takes (alone t ∙ at) in
      rw (wrote, valid, no_error, starts, found, made, loops, marshalled, converted, done)
        (refl, read, refl)
