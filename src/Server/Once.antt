-- ===== src/Server/Once.antt =====
-- A key id has one generated key.
use tss_server.Prelude.{
  String, true, inl, List, [], ◌∷◌, ◌++◌, All, Result, ok, ◌≡◌, sym, ap, subst, has_prefix,
}
use tss_server.Proto.{KeyGenPrepareMsg, KeyGenFinishMsg, key_gen_prepare, key_gen_finish}
use tss_server.Storage.{db_key, key_prefix}
use tss_server.Storage.Contract.{LocalStorage}
use tss_server.Manager.Lifecycle.{Reach-IsSound}
use tss_server.Session.{Action, reply}
use tss_server.KeyGen.Party.Repeated.{rejected}
use tss_server.KeyGen.Party.{failure, conclude, Environment, returned}
use tss_server.KeyGen.Party.Settled.{TakesWrites}
use tss_server.KeyGen.Party.Refines.{IsInterleaved, Reach-handle_key_gen}
use tss_server.Server.{Libraries, Manager, Request, key_gen_seat, serve, serve_all}
use tss_server.Server.Consistent.{IsFair, Reach-serve_all}
use tss_server.Server.Generated.{generation, storage_after, stays_under, told-IsReady}

module _ (libs : Libraries) (st : LocalStorage) where
  open st use {State, IsSound}

  -- Once a call of handleKeyGen that returns has told its coordinator of a success, the last
  -- reply of a later call for the same key id is a failure, whatever its session, and whatever
  -- requests the server served meanwhile. It holds where the storage takes every write and is
  -- sound before the first call, and what others do within a generation is to start, finish and
  -- fail generations.
  pub generated_once :
      (m : Manager libs st) (env again : Environment libs.lib libs.keys st libs.invalid_msg_type)
      (prepare prepare_again : KeyGenPrepareMsg) (res : Result KeyGenFinishMsg)
      (f : KeyGenFinishMsg) (before : List (Action libs.lib)) (later : List (Request libs st))
      → TakesWrites st
      → IsSound m.local_storage
      → IsInterleaved libs.lib libs.keys st libs.invalid_msg_type env
      → All (IsFair libs st) later
      → (generation libs st m env prepare).answer ≡ returned res
      → (generation libs st m env prepare).actions ≡ before ++ reply (key_gen_finish f) ∷ []
      → f.is_success ≡ true
      → prepare_again.key_id ≡ prepare.key_id
      → (e : String) × (told : List (Action libs.lib)) × ((generation libs st
            (record m { local_storage = storage_after libs st m env prepare later })
            again
            prepare_again).actions
          ≡ told ++ reply (key_gen_finish (failure e)) ∷ [])
  unfolding serve_all serve conclude
  generated_once m env again prepare prepare_again res f before later takes sound interleaved fair
        answered told success same =
      let (d, at, is_ready, _) =
        told-IsReady libs st m env prepare res f before takes sound interleaved answered told
          success in
      let first =
        Reach-handle_key_gen libs.lib libs.keys st libs.invalid_msg_type
          (key_gen_seat libs st m env) m.local_storage (ok (key_gen_prepare prepare)) interleaved in
      let rest =
        Reach-serve_all libs st
          (record m { local_storage = (generation libs st m env prepare).storage }) later fair in
      let s_sound = Reach-IsSound st sound first in
      let (stored, fits) =
        stays_under st _ _ prepare.key_id prepare.session_id d s_sound rest at is_ready in
      let (e, refused) =
        rejected libs.lib libs.keys st libs.invalid_msg_type (key_gen_seat libs st m again)
          (storage_after libs st m env prepare later) prepare_again d
          (Reach-IsSound st s_sound rest) stored (inl is_ready)
          (subst (λ k. has_prefix (db_key d.key_id d.key_session_id) (key_prefix k) ≡ true)
            (sym same) fits) in
      (e, _, ap (λ r. r.actions) refused)
