-- ===== src/KeySign/Party/Refused.antt =====
-- Key records that handleKeySign does not sign with.
use tss_server.Prelude.{String, some, [], ◌∷◌, Result, ok, err, ◌≡◌, refl}
use tss_server.Proto.{TssP2PMsg, KeyData, KeySignPrepareMsg, key_sign_prepare, key_sign_finish}
use tss_server.Proto.Getters.{get_key_sign_prepare_msg}
use tss_server.Storage.Contract.{LocalStorage}
use tss_server.Manager.{get_key_data_by_key_id_and_key_session_id_from_storage}
use tss_server.Session.{TssLib, reply}
use tss_server.KeySign.Party.{
  SignLib, Environment, failure, after_json, validate, after_validate, after_read, handle_key_sign0,
  conclude, handle_key_sign,
}

module _ (lib : TssLib) (signs : SignLib) (st : LocalStorage)
    (invalid_msg_type : TssP2PMsg → String) where
  open st use {State}

  -- A record whose save data does not parse, as that of a PENDING or failed record, which is empty,
  -- is not signed with: the handler replies a failure and nothing else. It holds where the stored
  -- record is read.
  pub unparsed_record_refused :
      (env : Environment lib signs st invalid_msg_type) (s : State) (m : KeySignPrepareMsg)
      (key_data : KeyData) (e : String)
      → st.get_key_data_by_key_id_and_key_session_id s m.key_id m.key_session_id
        ≡ ok (some key_data)
      → signs.unmarshal key_data.save_data_json ≡ err e
      → (reason : String) × ((handle_key_sign lib signs st invalid_msg_type env s
            (ok (key_sign_prepare m))).actions
          ≡ reply (key_sign_finish (failure reason)) ∷ [])
  unfolding handle_key_sign get_key_sign_prepare_msg handle_key_sign0
      get_key_data_by_key_id_and_key_session_id_from_storage after_read after_validate after_json
      conclude
  unparsed_record_refused env s m key_data e at bad =
      by_validate (validate lib signs st invalid_msg_type env m) refl
    where
      by_validate :
          (x : Result (Unit {0}))
          → validate lib signs st invalid_msg_type env m ≡ x
          → (reason : String) × ((handle_key_sign lib signs st invalid_msg_type env s
                (ok (key_sign_prepare m))).actions
              ≡ reply (key_sign_finish (failure reason)) ∷ [])
      by_validate (err r) valid = (r, rw (at, valid))
      by_validate (ok u) valid = (e, rw (at, valid, bad))
