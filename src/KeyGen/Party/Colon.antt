-- ===== src/KeyGen/Party/Colon.antt =====
-- A prepare message for a key id from which, behind a colon, the id of another key goes on.
use tss_server.Prelude.{Text, text, String, none, ◌++◌, List, [], ◌∷◌, ok, ◌≡◌}
use tss_server.Proto.{TssP2PMsg, KeyData, KeyGenPrepareMsg, key_gen_prepare, key_gen_finish}
use tss_server.Storage.Contract.{LocalStorage}
use tss_server.Manager.Keys.{IsUnder-colon}
use tss_server.Manager.Lifecycle.{IsLive, Stored}
use tss_server.Session.{TssLib, Action, reply}
use tss_server.KeyGen.Party.{KeyLib, Environment, handle_key_gen, failure}
use tss_server.KeyGen.Party.Repeated.{selected_refused}

module _ (lib : TssLib) (keys : KeyLib) (st : LocalStorage)
    (invalid_msg_type : TssP2PMsg → String) where
  open st use {State, IsSound}

  -- A READY or PENDING record of another key, `keyId:more`, keeps the key `keyId` from being
  -- generated: a call of handleKeyGen on a prepare message for `keyId` changes no record, and its
  -- last reply is a failure. It holds where nothing is stored under the ids of the new session,
  -- nothing else writes between the check and the end of the call, and the storage is sound.
  pub colon_key_refused :
      (env : Environment lib keys st invalid_msg_type) (s : State) (m : KeyGenPrepareMsg)
      (d : KeyData) (more : Text)
      → IsSound s
      → env.later s ≡ s
      → Stored st s d
      → IsLive d
      → d.key_id ≡ m.key_id ++ text ":" ++ more
      → st.get_key_data_by_key_id_and_key_session_id s m.key_id m.session_id ≡ ok none
      → ((handle_key_gen lib keys st invalid_msg_type env s (ok (key_gen_prepare m))).storage ≡ s)
        × (e : String) × (told : List (Action lib)) × ((handle_key_gen lib keys st invalid_msg_type
              env s
              (ok (key_gen_prepare m))).actions
            ≡ told ++ reply (key_gen_finish (failure e)) ∷ [])
  colon_key_refused env s m d more sound quiet stored live goes_on fresh =
      selected_refused lib keys st invalid_msg_type env s m d sound quiet stored live
        (IsUnder-colon m.key_id more d goes_on) fresh
