-- ===== src/Storage.antt =====
-- tss/tss_storage.go: LevelDBStorage over a key-value database and a protobuf codec, which are
-- parameters, and the LocalStorage interface that the manager uses.
pub mod External
pub mod Scan
pub mod Contract
pub mod Reading
pub mod LevelDb
use tss_server.Prelude.{
  ℕ, Text, text, has_prefix, ◌==◌, String, Option, none, some, List, [], ◌∷◌, ◌++◌, Result, ok, err,
  ◌>>=◌, if◌then◌else◌, ◌≡◌,
}
use tss_server.Proto.{KeyData}
use External.{Db, Codec}

-- []byte(keyId + ":")
unfoldable pub key_prefix : Text → Text
key_prefix key_id = key_id ++ text ":"

-- []byte(keyId + ":" + keySessionId)
unfoldable pub db_key : Text → Text → Text
db_key key_id key_session_id = key_id ++ text ":" ++ key_session_id

module _ (db : Db) (codec : Codec KeyData) where
  open db use {State}
  open codec use {marshal, unmarshal}

  -- The loop over the iterator: it stops at the first key without the prefix.
  unfoldable pub scan : Text → List (Text × Text) → List KeyData → Result (List KeyData)
  scan prefix [] key_data_list = ok key_data_list
  scan prefix ((k, v) ∷ rest) key_data_list =
      let next : Result (List KeyData) =
        unmarshal v >>= λ key_data. scan prefix rest (key_data_list ++ key_data ∷ []) in
      if has_prefix k prefix then next else ok key_data_list

  unfoldable pub get_key_data_list_by_key_id : State → Text → Result (List KeyData)
  unfolding scan key_prefix
  get_key_data_list_by_key_id s key_id =
      scan (key_prefix key_id) (db.iterator s (key_prefix key_id)) []

  unfoldable pub decode : Option Text → Result (Option KeyData)
  decode none = ok none
  decode (some bs) = unmarshal bs >>= λ key_data. ok (some key_data)

  unfoldable pub get_key_data_by_key_id_and_key_session_id :
      State → Text → Text → Result (Option KeyData)
  unfolding decode db_key
  get_key_data_by_key_id_and_key_session_id s key_id key_session_id =
      decode (db.get s (db_key key_id key_session_id))

  unfoldable pub set_key_data : State → KeyData → Result State
  unfolding db_key
  set_key_data s key_data = do
    bytes ← marshal key_data
    ok (db.set_sync s (db_key key_data.key_id key_data.key_session_id) bytes)

  unfoldable pub delete_key_data : State → Text → Text → Result State
  unfolding db_key
  delete_key_data s key_id key_session_id = ok (db.delete_sync s (db_key key_id key_session_id))
