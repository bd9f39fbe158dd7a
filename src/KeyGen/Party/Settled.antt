-- ===== src/KeyGen/Party/Settled.antt =====
-- The record of a session behind a call of handleKeyGen.
use tss_server.Prelude.{
  Text, String, ==_iff, Bool-cases, inl, inr, Option, none, some, ok, err, ◌>>=◌, >>=-eq-ok, ◌≡◌,
  ◌≢◌, refl, ◌∙◌,
}
use tss_server.Proto.{KeyData, KeyStatus, Time, pending, ready, is_status}
use tss_server.Storage.{db_key}
use tss_server.Storage.Contract.{LocalStorage}
use tss_server.Manager.{compare_and_set, compare_and_set_key_status_storage}

module _ (st : LocalStorage) where
  open st use {State, IsSound}

  -- Every write is taken.
  abbrev pub TakesWrites : Type 0
  TakesWrites = (s : State) (d : KeyData) → (t : State) × (st.set_key_data s d ≡ ok t)

  -- No PENDING record stands under the two ids.
  abbrev pub IsSettled : State → Text → Text → Type 0
  IsSettled s k j =
      (d : KeyData)
      → st.get_key_data_by_key_id_and_key_session_id s k j ≡ ok (some d)
      → d.status ≢ pending

  -- A READY record with the public key stands under the two ids.
  abbrev pub IsReady : State → Text → Text → Text → Type 0
  IsReady s k j pub_key =
      (d : KeyData) × (st.get_key_data_by_key_id_and_key_session_id s k j ≡ ok (some d))
      × (d.status ≡ ready)
      × (d.pubkey ≡ pub_key)

  -- What a write of compareAndSetKeyStatusStorage leaves under the ids.
  pub cas-record :
      (s t : State) (k j pub_key json : Text) (update : KeyStatus) (now : Time)
      → IsSound s
      → compare_and_set_key_status_storage st s k j pub_key pending update json now ≡ ok t
      → (d : KeyData) × (st.get_key_data_by_key_id_and_key_session_id t k j ≡ ok (some d))
        × (d.status ≡ update)
        × (d.pubkey ≡ pub_key)
        × IsSound t
  unfolding compare_and_set_key_status_storage compare_and_set
  cas-record s t k j pub_key json update now sound h =
      let (o, ho, h1) = >>=-eq-ok (st.get_key_data_by_key_id_and_key_session_id s k j) _ h in
      found o ho h1
    where
      found :
          (o : Option KeyData)
          → st.get_key_data_by_key_id_and_key_session_id s k j ≡ ok o
          → compare_and_set st s o pub_key pending update json now ≡ ok t
          → (d : KeyData) × (st.get_key_data_by_key_id_and_key_session_id t k j ≡ ok (some d))
            × (d.status ≡ update)
            × (d.pubkey ≡ pub_key)
            × IsSound t
      found none ho h1 = cc
      found (some o) ho h1 = elim (Bool-cases (is_status o.status pending)) [
        | inr e ↦ cc (rw e at h1)
        | inl e ↦
            let n : KeyData = record o {
              status = update;
              save_data_json = json;
              updated_time = now;
              pubkey = pub_key;
            } in
            let wrote : st.set_key_data s n ≡ ok t = rw e at h1 in
            let own =
              (==_iff (db_key o.key_id o.key_session_id) (db_key k j)).1
                (st.get_own_key s k j o sound ho) in
            (n, st.get-set s t n k j wrote ∙ rw own, refl, refl, st.set-IsSound s t n sound wrote)
      ]

  -- Where nothing is written, nothing PENDING stood under the ids, if every write is taken.
  pub cas-err :
      (s : State) (k j pub_key json : Text) (update : KeyStatus) (now : Time) (e : String)
      → TakesWrites
      → IsSound s
      → compare_and_set_key_status_storage st s k j pub_key pending update json now ≡ err e
      → IsSettled s k j
  unfolding compare_and_set_key_status_storage compare_and_set
  cas-err s k j pub_key json update now e takes sound h d at =
      let (t, wrote) = takes s (record d {
        status = update;
        save_data_json = json;
        updated_time = now;
        pubkey = pub_key;
      }) in
      λ p. cc (rw (at, ◌>>=◌, p, wrote) at h)
