-- ===== src/Tests/ManagerRuns.antt =====
-- The manager's theorems at a storage in which one key was generated.
use tss_server.Prelude.{text, [], ◌∷◌, some, ok, ◌≡◌, refl, Option}
use tss_server.Prelude.Int.{pos}
use tss_server.Proto.{KeyData, pending}
use tss_server.Storage.{
  key_prefix, get_key_data_list_by_key_id, get_key_data_by_key_id_and_key_session_id, decode,
}
use tss_server.Storage.Scan.{under, read_all, get_key_data_list_by_key_id-reads_all}
use tss_server.Manager.{get_latest_ready_key_data_by_key_id_from_storage}
use tss_server.Manager.Rpc.{IsLatestReply, get_key, get_key-IsLatestReply}
use tss_server.Manager.Keys.{IsLatestUnder, get_latest_ready_lem}
use tss_server.Manager.Lifecycle.{Stored, Step, start, finish, Reach, here, next, Reach-IsSound}
use tss_server.Manager.Lifecycle.OneLive.{AtMostOneLive, Reach-AtMostOneLive}
use tss_server.Manager.Lifecycle.Transitions.{Successor, Reach-ready, Step-Successor}
use tss_server.Tests.SortedMap.{sorted_map, empty, lookup}
use tss_server.Tests.KeyDataCodec.{key_data_codec}
use tss_server.Tests.Storage.{
  store, parties, generating, generated, generated_key, generated-Stored, extended,
}

pub empty-IsSound : store.IsSound empty
unfolding lookup
empty-IsSound k v h = cc

pub empty-AtMostOneLive : AtMostOneLive store empty
unfolding get_key_data_by_key_id_and_key_session_id decode lookup
empty-AtMostOneLive d e sd se k ld le = cc

pub generation : Reach store empty generated
unfolding generated
generation =
    next (next here (start (text "k") (text "s") (pos 1) parties 5 refl))
      (finish (text "k") (text "s") (2 ∷ 7 ∷ []) (text "{}") 9 refl)

pub generated-IsSound : store.IsSound generated
generated-IsSound = Reach-IsSound store empty-IsSound generation

Reach-AtMostOneLive_example : AtMostOneLive store generated
Reach-AtMostOneLive_example = Reach-AtMostOneLive store empty-IsSound empty-AtMostOneLive generation

extension : Reach store generated extended
unfolding extended
extension =
    next (next here (start (text "k:x") (text "t") (pos 1) [] 7 refl))
      (finish (text "k:x") (text "t") (3 ∷ 8 ∷ []) (text "{}") 8 refl)

extended-IsSound : store.IsSound extended
extended-IsSound = Reach-IsSound store generated-IsSound extension

Reach-ready_example : Stored store extended generated_key
Reach-ready_example =
    Reach-ready store generated_key generated-IsSound extension generated-Stored refl

abbrev generating_key : KeyData
generating_key = record generated_key {
  pubkey = [];
  status = pending;
  save_data_json = [];
  updated_time = 5;
}

generating-IsSound : store.IsSound generating
unfolding generating
generating-IsSound =
    Reach-IsSound store {s = empty} {t = generating} empty-IsSound
      (next here (start (text "k") (text "s") (pos 1) parties 5 refl))

generating-Stored : Stored store generating generating_key
unfolding generating
generating-Stored = refl

finishing : Step store generating generated
unfolding generated
finishing = finish (text "k") (text "s") (2 ∷ 7 ∷ []) (text "{}") 9 refl

Step-Successor_example :
    (e : KeyData) × (store.get_key_data_by_key_id_and_key_session_id generated (text "k") (text "s")
      ≡ ok (some e))
    × Successor generating_key e
Step-Successor_example =
    Step-Successor store generating_key generating-IsSound finishing generating-Stored

get_latest_ready_example :
    (o : Option KeyData) × (get_latest_ready_key_data_by_key_id_from_storage store generated
        (text "k")
      ≡ ok o)
    × IsLatestUnder store generated (text "k") o
get_latest_ready_example = get_latest_ready_lem store generated (text "k") generated-IsSound

reads_all_example :
    get_key_data_list_by_key_id sorted_map key_data_codec extended (text "k:x")
    ≡ read_all key_data_codec
        (under (key_prefix (text "k:x")) (sorted_map.iterator extended (key_prefix (text "k:x"))))
reads_all_example =
    get_key_data_list_by_key_id-reads_all sorted_map key_data_codec extended (text "k:x")

get_key-IsLatestReply_example :
    IsLatestReply (λ e. e) store generated (text "k") (get_key (λ e. e) store generated (text "k"))
get_key-IsLatestReply_example =
    get_key-IsLatestReply (λ e. e) store generated (text "k") generated-IsSound
