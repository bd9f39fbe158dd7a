-- ===== src/Storage/Contract.antt =====
-- The LocalStorage interface of tss/tss_storage.go: its operations, and what the manager may rely
-- on. A record is stored under `keyId:keySessionId`, so a lookup or a list by key id sees a record
-- by that joined key.
use tss_server.Prelude.{
  Text, has_prefix, ◌==◌, true, Option, none, some, List, Memᴰ, Result, ok, if◌then◌else◌, ◌≡◌,
}
use tss_server.Proto.{KeyData}
use tss_server.Storage.{db_key, key_prefix}

pub record LocalStorage : Type 1 where
  pub State : Type 0
  pub get_key_data_list_by_key_id : State → Text → Result (List KeyData)
  pub get_key_data_by_key_id_and_key_session_id : State → Text → Text → Result (Option KeyData)
  pub set_key_data : State → KeyData → Result State
  pub delete_key_data : State → Text → Text → Result State
  -- Every stored entry decodes, to a record of its own key.
  pub IsSound : State → Type 0
  pub list_total :
      (s : State) (key_id : Text)
      → IsSound s
      → (ds : List KeyData) × (get_key_data_list_by_key_id s key_id ≡ ok ds)
  pub get_total :
      (s : State) (k j : Text)
      → IsSound s
      → (o : Option KeyData) × (get_key_data_by_key_id_and_key_session_id s k j ≡ ok o)
  pub get_own_key :
      (s : State) (k j : Text) (d : KeyData)
      → IsSound s
      → get_key_data_by_key_id_and_key_session_id s k j ≡ ok (some d)
      → db_key d.key_id d.key_session_id ≡ db_key k j
  pub get_same_key :
      (s : State) (k j k' j' : Text)
      → db_key k j ≡ db_key k' j'
      → get_key_data_by_key_id_and_key_session_id s k j
        ≡ get_key_data_by_key_id_and_key_session_id s k' j'
  pub get-set :
      (s t : State) (d : KeyData) (k j : Text)
      → set_key_data s d ≡ ok t
      → get_key_data_by_key_id_and_key_session_id t k j ≡ (
          if db_key d.key_id d.key_session_id == db_key k j
          then ok (some d)
          else get_key_data_by_key_id_and_key_session_id s k j)
  pub get-delete :
      (s t : State) (i l k j : Text)
      → delete_key_data s i l ≡ ok t
      → get_key_data_by_key_id_and_key_session_id t k j ≡ (
          if db_key i l == db_key k j
          then ok none
          else get_key_data_by_key_id_and_key_session_id s k j)
  pub list_stored :
      (s : State) (key_id : Text) (ds : List KeyData) (d : KeyData)
      → IsSound s
      → get_key_data_list_by_key_id s key_id ≡ ok ds
      → Memᴰ d ds
      → (get_key_data_by_key_id_and_key_session_id s d.key_id d.key_session_id ≡ ok (some d))
        × (has_prefix (db_key d.key_id d.key_session_id) (key_prefix key_id) ≡ true)
  pub stored_list :
      (s : State) (key_id : Text) (ds : List KeyData) (d : KeyData)
      → IsSound s
      → get_key_data_list_by_key_id s key_id ≡ ok ds
      → get_key_data_by_key_id_and_key_session_id s d.key_id d.key_session_id ≡ ok (some d)
      → has_prefix (db_key d.key_id d.key_session_id) (key_prefix key_id) ≡ true
      → Memᴰ d ds
  pub set-IsSound : (s t : State) (d : KeyData) → IsSound s → set_key_data s d ≡ ok t → IsSound t
  pub delete-IsSound :
      (s t : State) (k j : Text) → IsSound s → delete_key_data s k j ≡ ok t → IsSound t
