-- ===== src/Manager/Lifecycle/SavedData.antt =====
-- Which records hold the save data of a key.
use tss_server.Prelude.{
  Text, Bool-cases, inl, inr, ◌⊎◌, Option, none, some, ok, [], >>=-eq-ok, ◌≡◌, refl,
}
use tss_server.Proto.{KeyData, KeyStatus, Time, pending, ready, error, is_status}
use tss_server.Storage.Contract.{LocalStorage}
use tss_server.Manager.{
  check_no_live, pending_key_data, check_and_set_key_gen_storage, compare_and_set,
  compare_and_set_key_status_storage,
}
use tss_server.Manager.Lifecycle.{Stored, Step, start, finish, fail, Reach, here, next, after_write}

-- The record is READY, or it holds neither save data nor a public key.
abbrev pub IsReadyOrBlank : KeyData → Type 0
IsReadyOrBlank d = (d.status ≡ ready) ⊎ ((d.save_data_json ≡ []) × (d.pubkey ≡ []))

module _ (st : LocalStorage) where
  open st use {State, IsSound}

  abbrev pub OnlyReadySaves : State → Type 0
  OnlyReadySaves s = (d : KeyData) → Stored st s d → IsReadyOrBlank d

  -- compareAndSetKeyStatusStorage writes the record that it found, with the fields it was given.
  cas-written :
      (s t : State) (k j pub_key json : Text) (expect update : KeyStatus) (now : Time)
      → compare_and_set_key_status_storage st s k j pub_key expect update json now ≡ ok t
      → (o : KeyData) × (st.set_key_data s (record o {
        status = update;
        save_data_json = json;
        updated_time = now;
        pubkey = pub_key;
      })
          ≡ ok t)
  unfolding compare_and_set_key_status_storage compare_and_set
  cas-written s t k j pub_key json expect update now h =
      let (o, ho, h1) = >>=-eq-ok (st.get_key_data_by_key_id_and_key_session_id s k j) _ h in
      found o h1
    where
      found :
          (o : Option KeyData)
          → compare_and_set st s o pub_key expect update json now ≡ ok t
          → (o : KeyData) × (st.set_key_data s (record o {
            status = update;
            save_data_json = json;
            updated_time = now;
            pubkey = pub_key;
          })
              ≡ ok t)
      found none g = cc
      found (some o) g = elim (Bool-cases (is_status o.status expect)) [
        | inl e ↦ (o, rw e at g)
        | inr e ↦ cc (rw e at g)
      ]

  Step-IsReadyOrBlank :
      {s t : State} → Step st s t → (n : KeyData) × (st.set_key_data s n ≡ ok t) × IsReadyOrBlank n
  unfolding check_and_set_key_gen_storage
  Step-IsReadyOrBlank {s} {t} (start key_id session_id threshold all_party_id now h) =
      let (ds, hl, h1) = >>=-eq-ok (st.get_key_data_list_by_key_id s key_id) _ h in
      let (u, hc, h2) = >>=-eq-ok (check_no_live ds) _ h1 in
      (pending_key_data key_id session_id threshold all_party_id now, h2, inr (refl, refl))
  Step-IsReadyOrBlank {s} {t} (finish key_id session_id pub_key json now h) =
      let (o, wrote) = cas-written s t key_id session_id pub_key json pending ready now h in
      (_, wrote, inl refl)
  Step-IsReadyOrBlank {s} {t} (fail key_id session_id now h) =
      let (o, wrote) = cas-written s t key_id session_id [] [] pending error now h in
      (_, wrote, inr (refl, refl))

  -- However generations start, finish and fail, only READY records hold save data or a public key,
  -- if this is so at the start.
  pub Reach-OnlyReadySaves : {s t : State} → OnlyReadySaves s → Reach st s t → OnlyReadySaves t
  Reach-OnlyReadySaves only here d stored = only d stored
  Reach-OnlyReadySaves only (next {t} {u} before step) d stored =
      let (n, wrote, shape) = Step-IsReadyOrBlank step in
      elim (after_write st t u n d wrote stored) [
        | inl same ↦ rw same shape
        | inr (earlier, apart) ↦ Reach-OnlyReadySaves only before d earlier
      ]
