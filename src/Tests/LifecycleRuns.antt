-- ===== src/Tests/LifecycleRuns.antt =====
-- The handlers and the life cycle of the key records at the first key of the test storage.
use tss_server.Prelude.{
  text, Text, String, false, none, some, inr, List, ◌∷◌, ◌++◌, [], ok, err, ◌≡◌, refl,
}
use tss_server.Prelude.Int.{ℤ, pos}
use tss_server.Prelude.BigInt.{set_bytes}
use tss_server.Proto.{PartyId, KeyData, Time, key_gen_prepare, key_gen_finish, ready}
use tss_server.Manager.{check_and_set_key_gen_storage, check_no_live, pending_key_data}
use tss_server.Manager.Lifecycle.{Stored, Reach, here, next, start, Reach-IsSound}
use tss_server.Manager.Lifecycle.SavedData.{OnlyReadySaves}
use tss_server.Session.{convert_to_tss_party_id, Action, reply}
use tss_server.KeyGen.Party.{Environment, handle_key_gen, failure}
use tss_server.KeyGen.Party.Refines.{Reach-handle_key_gen}
use tss_server.KeyGen.Party.Panic.{left_record, panicked_blocks_key}
use tss_server.KeyGen.Party.Colon.{colon_key_refused}
use tss_server.KeySign.Party.{handle_key_sign}
use tss_server.KeySign.Party.OnlyReady.{signed-ready}
use tss_server.Storage.{get_key_data_by_key_id_and_key_session_id, decode}
use tss_server.Tests.SortedMap.{Map, empty, lookup}
use tss_server.Tests.Storage.{store, state_of, run_storage, generated}
use tss_server.Tests.TssLib.{tss_lib, key_lib}
use tss_server.Tests.ManagerRuns.{empty-IsSound, generation}
use tss_server.Tests.PartyRuns
use tss_server.Tests.SigningRuns

Reach-handle_key_gen_example :
    Reach store empty
      (handle_key_gen tss_lib key_lib store PartyRuns.name PartyRuns.env empty
        (ok (key_gen_prepare PartyRuns.prepare))).storage
Reach-handle_key_gen_example =
    Reach-handle_key_gen tss_lib key_lib store PartyRuns.name PartyRuns.env empty
      (ok (key_gen_prepare PartyRuns.prepare)) ((λ s. here), λ s. here)

-- A run in which GeneratePreParams fails.
abbrev unprepared : Environment tss_lib key_lib store PartyRuns.name
unprepared = record PartyRuns.env { pre_params_made = false }

panicked_blocks_key_example :
    let t =
      (handle_key_gen tss_lib key_lib store PartyRuns.name unprepared empty
        (ok (key_gen_prepare PartyRuns.prepare))).storage in
    store.IsSound t
    × Stored store t (left_record tss_lib key_lib store PartyRuns.name PartyRuns.prepare 5)
    × ((u : store.State) (session_id : Text) (threshold : ℤ) (parties : List PartyId) (now : Time)
        → store.IsSound u
        → Stored store u (left_record tss_lib key_lib store PartyRuns.name PartyRuns.prepare 5)
        → (e : String) × (check_and_set_key_gen_storage store u
              (text "k")
              session_id
              threshold
              parties
              now
            ≡ err e))
unfolding handle_key_gen run_storage check_and_set_key_gen_storage check_no_live
    convert_to_tss_party_id
panicked_blocks_key_example =
    panicked_blocks_key tss_lib key_lib store PartyRuns.name unprepared empty PartyRuns.prepare
      empty-IsSound refl

-- A storage in which the key "k:x" is being generated.
unfoldable extending : Map
unfolding run_storage check_and_set_key_gen_storage check_no_live
extending =
    state_of (check_and_set_key_gen_storage store empty (text "k:x") (text "t") (pos 1) [] 7)

extending_run : Reach store empty extending
unfolding extending
extending_run = next here (start (text "k:x") (text "t") (pos 1) [] 7 refl)

extending-IsSound : store.IsSound extending
extending-IsSound = Reach-IsSound store empty-IsSound extending_run

extending-Stored : Stored store extending (pending_key_data (text "k:x") (text "t") (pos 1) [] 7)
unfolding extending
extending-Stored = refl

extending-fresh :
    store.get_key_data_by_key_id_and_key_session_id extending (text "k") (text "s") ≡ ok none
unfolding extending
extending-fresh = refl

colon_key_refused_example :
    ((handle_key_gen tss_lib key_lib store PartyRuns.name PartyRuns.env extending
        (ok (key_gen_prepare PartyRuns.prepare))).storage
      ≡ extending)
    × (e : String) × (told : List (Action tss_lib)) × ((handle_key_gen tss_lib key_lib store
          PartyRuns.name PartyRuns.env extending
          (ok (key_gen_prepare PartyRuns.prepare))).actions
        ≡ told ++ reply (key_gen_finish (failure e)) ∷ [])
colon_key_refused_example =
    colon_key_refused tss_lib key_lib store PartyRuns.name PartyRuns.env extending PartyRuns.prepare
      (pending_key_data (text "k:x") (text "t") (pos 1) [] 7) (text "x") extending-IsSound refl
      extending-Stored (inr refl) refl extending-fresh

pub empty-OnlyReadySaves : OnlyReadySaves store empty
unfolding get_key_data_by_key_id_and_key_session_id decode lookup
empty-OnlyReadySaves d stored = cc

signed-ready_example :
    (d : KeyData) × (store.get_key_data_by_key_id_and_key_session_id generated (text "k") (text "s")
      ≡ ok (some d))
    × (d.status ≡ ready)
unfolding handle_key_sign generated convert_to_tss_party_id set_bytes
signed-ready_example =
    signed-ready tss_lib SigningRuns.signing store SigningRuns.name SigningRuns.env empty generated
      SigningRuns.prepare SigningRuns.signature "unexpected end of JSON input" refl empty-IsSound
      empty-OnlyReadySaves generation refl refl
