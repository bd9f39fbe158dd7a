-- ===== src/KeyGen/Party/Repeated.antt =====
-- A prepare message for a key that is being generated or exists.
use tss_server.Prelude.{
  Text, String, has_prefix, true, ==_iff, inr, none, List, [], ◌∷◌, ◌++◌, All-Memᴰ, Result, ok, err,
  ◌>>=◌, >>=-eq-ok, ◌≡◌, refl, ap, ◌∙◌,
}
use tss_server.Proto.{
  TssP2PMsg, KeyData, KeyGenPrepareMsg, Time, key_gen_prepare, key_gen_finish, pending, ready,
  error,
}
use tss_server.Proto.Getters.{get_key_gen_prepare_msg}
use tss_server.Storage.{db_key, key_prefix}
use tss_server.Storage.Contract.{LocalStorage}
use tss_server.Manager.{
  check_no_live, check_and_set_key_gen_storage, compare_and_set, compare_and_set_key_status_storage,
}
use tss_server.Manager.Lifecycle.{IsLive, Stored, check_no_live-ok, has_prefix-db_key}
use tss_server.Session.{TssLib, Action, reply, others}
use tss_server.KeyGen.Party.{
  KeyLib, returned, Environment, written, set_error, after_check, handle_key_gen0, conclude,
  handle_key_gen, failure, notify,
}
use tss_server.KeyGen.Party.Settled.{TakesWrites}

own_prefix :
    (d : KeyData) (k : Text)
    → k ≡ d.key_id
    → has_prefix (db_key d.key_id d.key_session_id) (key_prefix k) ≡ true
own_prefix d k same = rw same (has_prefix-db_key d.key_id d.key_session_id)

module _ (st : LocalStorage) where
  open st use {State, IsSound}

  -- While a live record that the key id selects is stored, no generation of it starts.
  pub live-check :
      (s : State) (d : KeyData) (j : Text) (r : Result State) (m : KeyGenPrepareMsg) (now : Time)
      → IsSound s
      → Stored st s d
      → IsLive d
      → has_prefix (db_key d.key_id d.key_session_id) (key_prefix m.key_id) ≡ true
      → check_and_set_key_gen_storage st s m.key_id m.session_id m.threshold m.all_party_id now ≡ r
      → (e : String) × (r ≡ err e)
  unfolding check_and_set_key_gen_storage
  live-check s d j (err e) m now sound stored live fits h = (e, refl)
  live-check s d j (ok t) m now sound stored live fits h =
      let (ds, hl, h1) = >>=-eq-ok (st.get_key_data_list_by_key_id s m.key_id) _ h in
      let (u, hc, h2) = >>=-eq-ok (check_no_live ds) _ h1 in
      absurd (
        All-Memᴰ (λ (x : KeyData). ¬ IsLive x) (check_no_live-ok ds hc)
          (st.stored_list s m.key_id ds d sound hl stored fits) live)

  -- The record of a session that has failed at `now`.
  abbrev pub failed_record : KeyData → Time → KeyData
  failed_record d now = record d {
    status = error;
    save_data_json = [];
    updated_time = now;
    pubkey = [];
  }

module _ (lib : TssLib) (keys : KeyLib) (st : LocalStorage)
    (invalid_msg_type : TssP2PMsg → String) where
  open st use {State, IsSound}

  pub rejected :
      (env : Environment lib keys st invalid_msg_type) (s : State) (m : KeyGenPrepareMsg)
      (d : KeyData)
      → IsSound s
      → Stored st s d
      → IsLive d
      → has_prefix (db_key d.key_id d.key_session_id) (key_prefix m.key_id) ≡ true
      → (e : String) × (handle_key_gen lib keys st invalid_msg_type env s (ok (key_gen_prepare m))
          ≡ conclude lib keys st invalid_msg_type env m s [] (returned (err e)))
  unfolding handle_key_gen get_key_gen_prepare_msg handle_key_gen0 after_check
  rejected env s m d sound stored live fits =
      let (e, he) = live-check st s d [] _ m env.created_time sound stored live fits refl in
      (e, rw he)

  -- A second prepare message for a session whose record is PENDING makes that record ERROR, so
  -- that the running session can no longer store its key. It holds where nothing else writes
  -- between the check and the write of the second call, and the storage is sound and takes every
  -- write.
  pub repeated_prepare_fails_session :
      (env : Environment lib keys st invalid_msg_type) (s : State) (m : KeyGenPrepareMsg)
      (d : KeyData)
      → IsSound s
      → TakesWrites st
      → env.later s ≡ s
      → Stored st s d
      → d.status ≡ pending
      → m.key_id ≡ d.key_id
      → m.session_id ≡ d.key_session_id
      → (t : State) × ((handle_key_gen lib keys st invalid_msg_type env s
            (ok (key_gen_prepare m))).storage
          ≡ t)
        × Stored st t (failed_record st d env.failed_time)
        × ((pub_key json : Text) (now : Time)
            → compare_and_set_key_status_storage st t d.key_id d.key_session_id pub_key pending
                ready json now
              ≡ err "key data status not equal expect status")
  unfolding conclude set_error written compare_and_set_key_status_storage compare_and_set
  repeated_prepare_fails_session env s m d sound takes quiet stored is_pending same same_session =
      let (e, he) = rejected env s m d sound stored (inr is_pending) (own_prefix d m.key_id same) in
      let (t, wrote) = takes s (failed_record st d env.failed_time) in
      let own = db_key d.key_id d.key_session_id in
      let found : Stored st t (failed_record st d env.failed_time) =
        st.get-set s t (failed_record st d env.failed_time) d.key_id d.key_session_id wrote
        ∙ rw ((==_iff own own).1 refl) in
      (
        t,
        ap (λ r. r.storage) he ∙ rw (quiet, same, same_session, stored, ◌>>=◌, is_pending, wrote),
        found,
        λ pub_key json now. rw found,
      )

  -- A prepare message for a key id that selects a live record, of another session, is refused: the
  -- handler changes no record, and its last reply is a failure. It holds where nothing is stored
  -- under the ids of the new session, nothing else writes between the check and the end of the
  -- call, and the storage is sound.
  pub selected_refused :
      (env : Environment lib keys st invalid_msg_type) (s : State) (m : KeyGenPrepareMsg)
      (d : KeyData)
      → IsSound s
      → env.later s ≡ s
      → Stored st s d
      → IsLive d
      → has_prefix (db_key d.key_id d.key_session_id) (key_prefix m.key_id) ≡ true
      → st.get_key_data_by_key_id_and_key_session_id s m.key_id m.session_id ≡ ok none
      → ((handle_key_gen lib keys st invalid_msg_type env s (ok (key_gen_prepare m))).storage ≡ s)
        × (e : String) × (told : List (Action lib)) × ((handle_key_gen lib keys st invalid_msg_type
              env s
              (ok (key_gen_prepare m))).actions
            ≡ told ++ reply (key_gen_finish (failure e)) ∷ [])
  unfolding conclude set_error written compare_and_set_key_status_storage compare_and_set
  selected_refused env s m d sound quiet stored live fits fresh =
      let (e, he) = rejected env s m d sound stored live fits in
      (
        ap (λ r. r.storage) he ∙ rw (quiet, fresh, ◌>>=◌),
        e,
        notify lib keys st invalid_msg_type env e (others lib env.local_id m.all_party_id),
        ap (λ r. r.actions) he,
      )
