-- ===== src/Tests/ServerRuns.antt =====
-- A server with a storage that runs: it takes part in a generation, and goes on.
use tss_server.Prelude.{
  ◌++◌, String, ℕ, text, [], ◌∷◌, List, true, none, some, ok, ◌≡◌, refl, arith, All, sym, subst,
  inl, inr, before,
}
use tss_server.Proto.{
  key_gen_finish, KeyGenPrepareMsg, KeyData, key_gen_prepare, key_sign_prepare, ready,
}
use tss_server.Storage.{get_key_data_by_key_id_and_key_session_id, decode}
use tss_server.Manager.{
  check_and_set_key_gen_storage, check_no_live, compare_and_set_key_status_storage,
  get_latest_ready_key_data_by_key_id_from_storage,
}
use tss_server.Manager.Keys.{NoColon}
use tss_server.Manager.Lifecycle.{Stored, here, after_write}
use tss_server.Manager.Rpc.{response, get_key}
use tss_server.Session.{Action, reply, convert_to_tss_party_id}
use tss_server.KeyGen
use tss_server.KeyGen.Party.Success.{finished_record}
use tss_server.KeyGen.Party.{failure, convert_pub_key, handle_key_gen}
use tss_server.Server.{
  Libraries, Manager, Request, new_manager, key_gen_seat, key_gen_stream, key_sign_stream,
  get_key_call, serve_all,
}
use tss_server.Server.Consistent.{IsFair, IsConsistent, serve_all-IsConsistent}
use tss_server.Server.Generated.{generated_key_stays}
use tss_server.Server.Once.{generated_once}
use tss_server.Tests.SortedMap.{Map, empty, lookup}
use tss_server.Tests.Storage
use tss_server.Tests.Storage.{run_storage}
use tss_server.Tests.TssLib.{tss_lib, key_lib, all_but_last}
use tss_server.Tests.ManagerRuns.{empty-IsSound, empty-AtMostOneLive}
use tss_server.Tests.LifecycleRuns.{empty-OnlyReadySaves}
use tss_server.Tests.NodeRuns.{network, missing, up}
use tss_server.Tests.KeyGenRuns
use tss_server.Tests.PartyRuns
use tss_server.Tests.SigningRuns

abbrev libraries : Libraries
libraries = record {
  H = ℕ;
  net = network;
  no_local_handler = missing;
  lib = tss_lib;
  keys = key_lib;
  signs = SigningRuns.signing;
  invalid_msg_type = PartyRuns.name;
  errorf = λ e. e;
}

abbrev server : Manager libraries Storage.store
server =
    new_manager libraries Storage.store empty up
      (record { key_gen_validate = λ k t ps. none; key_sign_validate = λ i k m. ok [] }) true

-- The key is generated again under another session, is signed with, and is asked for.
abbrev later : List (Request libraries Storage.store)
later =
    key_gen_stream PartyRuns.env
      (ok (key_gen_prepare (record PartyRuns.prepare { session_id = text "t" })))
    ∷ key_sign_stream SigningRuns.env (ok (key_sign_prepare SigningRuns.prepare))
    ∷ get_key_call (text "k")
    ∷ []

later-IsFair : All (IsFair libraries Storage.store) later
later-IsFair = (((λ s. here), λ s. here), (tt, (tt, tt)))

serve_all-IsConsistent_example :
    IsConsistent libraries Storage.store
      (serve_all libraries Storage.store server later).local_storage
unfolding new_manager
serve_all-IsConsistent_example =
    serve_all-IsConsistent libraries Storage.store server later later-IsFair
      (empty-IsSound, empty-AtMostOneLive, empty-OnlyReadySaves)

-- The server behind these requests, and its one record.
unfoldable after_all : Map
unfolding new_manager serve_all handle_key_gen run_storage check_and_set_key_gen_storage
    check_no_live convert_to_tss_party_id convert_pub_key compare_and_set_key_status_storage
after_all =
    (serve_all libraries Storage.store server
      (key_gen_stream PartyRuns.env (ok (key_gen_prepare PartyRuns.prepare)) ∷ later)).local_storage

abbrev the_record : KeyData
the_record = finished_record Storage.store PartyRuns.prepare 5 9 (2 ∷ 7 ∷ []) (text "{}")

stored_alone : Storage.store.set_key_data empty the_record ≡ ok after_all
unfolding after_all
stored_alone = refl

empty-Stored : (e : KeyData) → ¬ Stored Storage.store empty e
unfolding get_key_data_by_key_id_and_key_session_id decode lookup
empty-Stored e stored = cc

after_all-NoColon : (e : KeyData) → Stored Storage.store after_all e → NoColon e.key_id
after_all-NoColon e stored =
    elim (after_write Storage.store empty after_all the_record e stored_alone stored) [
      | inl same ↦
          subst (λ (d : KeyData). NoColon d.key_id) (sym same) ((λ p. omega (arith, p)), tt)
      | inr (before, _) ↦ absurd (empty-Stored e before)
    ]

abbrev first_run : KeyGen.Party.Run tss_lib key_lib Storage.store PartyRuns.name
first_run =
    handle_key_gen tss_lib key_lib Storage.store PartyRuns.name
      (key_gen_seat libraries Storage.store server PartyRuns.env) empty
      (ok (key_gen_prepare PartyRuns.prepare))

generated_key_stays_example :
    (d : KeyData) × (get_latest_ready_key_data_by_key_id_from_storage Storage.store after_all
        (text "k")
      ≡ ok (some d))
    × (d.key_session_id ≡ text "s")
    × (d.pubkey ≡ 2 ∷ 7 ∷ [])
    × (get_key (λ e. e) Storage.store after_all (text "k")
        ≡ response (record {
          key_id = text "k";
          public_key = 2 ∷ 7 ∷ [];
          threshold = d.threshold;
          all_party_id = d.all_party_id;
          status = ready;
        }))
unfolding after_all
generated_key_stays_example =
    generated_key_stays libraries Storage.store server PartyRuns.env PartyRuns.prepare
      (ok KeyGenRuns.success) KeyGenRuns.success (all_but_last first_run.actions) later
      PartyRuns.store-TakesWrites empty-IsSound empty-AtMostOneLive ((λ s. here), λ s. here)
      later-IsFair refl refl refl ((λ p. omega (arith, p)), tt) after_all-NoColon

abbrev prepare_again : KeyGenPrepareMsg
prepare_again = record PartyRuns.prepare { session_id = text "t" }

generated_once_example :
    (e : String) × (told : List (Action tss_lib)) × ((handle_key_gen tss_lib key_lib Storage.store
        PartyRuns.name
        (key_gen_seat libraries Storage.store server PartyRuns.env)
        after_all
        (ok (key_gen_prepare prepare_again))).actions
      ≡ told ++ reply (key_gen_finish (failure e)) ∷ [])
unfolding after_all
generated_once_example =
    generated_once libraries Storage.store server PartyRuns.env PartyRuns.env PartyRuns.prepare
      prepare_again (ok KeyGenRuns.success) KeyGenRuns.success (all_but_last first_run.actions)
      later PartyRuns.store-TakesWrites empty-IsSound ((λ s. here), λ s. here) later-IsFair refl
      refl refl refl
