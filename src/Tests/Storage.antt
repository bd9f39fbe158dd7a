-- ===== src/Tests/Storage.antt =====
-- A storage of LevelDB's kind that runs, and a first run: a generation starts and finishes.
use tss_server.Prelude.{
  text, List, [], ◌∷◌, some, Result, ok, err, ◌≡◌, refl, ◌==◌, has_prefix, before,
}
use tss_server.Prelude.Int.{pos}
use tss_server.Proto.{KeyData, PartyId, pending, ready}
use tss_server.Storage.{
  key_prefix, db_key, scan, get_key_data_list_by_key_id, decode,
  get_key_data_by_key_id_and_key_session_id, set_key_data,
}
use tss_server.Storage.Contract.{LocalStorage}
use tss_server.Storage.LevelDb.{level_db_storage}
use tss_server.Tests.SortedMap.{Map, sorted_map, empty, lookup, insert, remove, from}
use tss_server.Tests.KeyDataCodec.{key_data_codec}
use tss_server.Manager.{
  check_and_set_key_gen_storage, check_no_live, compare_and_set_key_status_storage,
}

abbrev pub store : LocalStorage
store = level_db_storage sorted_map key_data_codec

abbrev pub state_of : Result Map → Map
state_of (ok s) = s
state_of (err e) = empty

-- The parties of the key.
abbrev pub parties : List PartyId
parties =
    record { id = text "a"; moniker = []; key = [] }
    ∷ record { id = text "b"; moniker = []; key = [] }
    ∷ []

-- What a run of the storage computes with.
unfoldable pub run_storage : Unit {0}
unfolding lookup insert remove from key_data_codec key_prefix db_key scan
    get_key_data_list_by_key_id decode get_key_data_by_key_id_and_key_session_id set_key_data ◌==◌
    has_prefix before
run_storage = tt

unfoldable pub generating : Map
unfolding run_storage check_and_set_key_gen_storage check_no_live
generating =
    state_of (check_and_set_key_gen_storage store empty (text "k") (text "s") (pos 1) parties 5)

unfoldable pub generated : Map
unfolding generating compare_and_set_key_status_storage
generated = state_of (
    compare_and_set_key_status_storage store generating (text "k") (text "s") (2 ∷ 7 ∷ []) pending
      ready (text "{}") 9)

abbrev pub generated_key : KeyData
generated_key = record {
  key_id = text "k";
  key_session_id = text "s";
  threshold = pos 1;
  all_party_id = parties;
  pubkey = 2 ∷ 7 ∷ [];
  status = ready;
  save_data_json = text "{}";
  created_time = 5;
  updated_time = 9;
}

pub generated-Stored :
    store.get_key_data_by_key_id_and_key_session_id generated (text "k") (text "s")
    ≡ ok (some generated_key)
unfolding generated
generated-Stored = refl

-- A second key, whose id goes on from the first one's behind a colon.
unfoldable pub extending : Map
unfolding generated
extending =
    state_of (check_and_set_key_gen_storage store generated (text "k:x") (text "t") (pos 1) [] 7)

unfoldable pub extended : Map
unfolding extending
extended = state_of (
    compare_and_set_key_status_storage store extending (text "k:x") (text "t") (3 ∷ 8 ∷ []) pending
      ready (text "{}") 8)
