-- ===== src/Manager.antt =====
-- tss/tss_manager.go: what the manager does with its key records. Each function holds the
-- manager's lock from its first line to its return, so it is one step on the storage; with an error
-- it leaves the storage as it was.
pub mod Latest
pub mod Lifecycle
pub mod Keys
pub mod Rpc
use tss_server.Prelude.{
  Text, String, ltb, ◌==◌, Option, none, some, List, [], ◌∷◌, Result, ok, err, ◌>>=◌, if◌then◌else◌,
}
use tss_server.Prelude.Int.{ℤ}
use tss_server.Proto.{KeyData, KeyStatus, PartyId, Time, unknown, pending, ready, error, is_status}
use tss_server.Storage.Contract.{LocalStorage}

-- The loop of checkAndSetKeyGenStorage.
unfoldable pub check_no_live : List KeyData → Result (Unit {0})
check_no_live [] = ok tt
check_no_live (d ∷ ds) =
    let rest = check_no_live ds in
    if is_status d.status ready
    then err "key already exist"
    else if is_status d.status pending
    then err "key is generating, please do not repeat"
    else rest

-- The loop of checkAndSetKeyResharingStorage.
unfoldable pub check_no_session : Text → List KeyData → Result (Unit {0})
check_no_session session_id [] = ok tt
check_no_session session_id (d ∷ ds) =
    let rest = check_no_session session_id ds in
    if d.key_session_id == session_id then err "key already exist" else rest

-- The record that both of them store.
abbrev pub pending_key_data : Text → Text → ℤ → List PartyId → Time → KeyData
pending_key_data key_id session_id threshold all_party_id created_time = record {
  key_id = key_id;
  key_session_id = session_id;
  threshold = threshold;
  all_party_id = all_party_id;
  pubkey = [];
  status = pending;
  save_data_json = [];
  created_time = created_time;
  updated_time = created_time;
}

-- One round of the loop of getLatestReadyKeyDataByKeyIdFromStorage.
unfoldable pub later_ready : Option KeyData → KeyData → Option KeyData
later_ready none d = if is_status d.status ready then some d else none
later_ready (some l) d =
    if is_status d.status ready
    then (if ltb l.created_time d.created_time then some d else some l)
    else some l

unfoldable pub latest_ready : Option KeyData → List KeyData → Option KeyData
latest_ready latest [] = latest
latest_ready latest (d ∷ ds) = latest_ready (later_ready latest d) ds

module _ (st : LocalStorage) where
  open st use {State}

  unfoldable pub check_and_set_key_gen_storage :
      State → Text → Text → ℤ → List PartyId → Time → Result State
  check_and_set_key_gen_storage s key_id session_id threshold all_party_id created_time = do
    key_data_list ← st.get_key_data_list_by_key_id s key_id
    free ← check_no_live key_data_list
    st.set_key_data s (pending_key_data key_id session_id threshold all_party_id created_time)

  unfoldable pub check_and_set_key_resharing_storage :
      State → Text → Text → ℤ → List PartyId → Time → Result State
  check_and_set_key_resharing_storage s key_id session_id threshold all_party_id created_time = do
    key_data_list ← st.get_key_data_list_by_key_id s key_id
    free ← check_no_session session_id key_data_list
    st.set_key_data s (pending_key_data key_id session_id threshold all_party_id created_time)

  unfoldable pub get_latest_ready_key_data_by_key_id_from_storage :
      State → Text → Result (Option KeyData)
  get_latest_ready_key_data_by_key_id_from_storage s key_id = do
    key_data_list ← st.get_key_data_list_by_key_id s key_id
    ok (latest_ready none key_data_list)

  unfoldable pub get_key_data_by_key_id_and_key_session_id_from_storage :
      State → Text → Text → Result (Option KeyData)
  get_key_data_by_key_id_and_key_session_id_from_storage =
      st.get_key_data_by_key_id_and_key_session_id

  -- The part of compareAndSetKeyStatusStorage behind the read.
  unfoldable pub compare_and_set :
      State → Option KeyData → Text → KeyStatus → KeyStatus → Text → Time → Result State
  compare_and_set s none pub_key expect update json updated_time = err "key data not found"
  compare_and_set s (some d) pub_key expect update json updated_time =
      if is_status d.status expect
      then st.set_key_data s (record d {
        status = update;
        save_data_json = json;
        updated_time = updated_time;
        pubkey = pub_key;
      })
      else err "key data status not equal expect status"

  unfoldable pub compare_and_set_key_status_storage :
      State → Text → Text → Text → KeyStatus → KeyStatus → Text → Time → Result State
  unfolding compare_and_set
  compare_and_set_key_status_storage s key_id key_session_id pub_key expect update json
        updated_time =
      do
        key_data ← st.get_key_data_by_key_id_and_key_session_id s key_id key_session_id
        compare_and_set s key_data pub_key expect update json updated_time
