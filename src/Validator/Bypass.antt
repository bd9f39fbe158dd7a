-- ===== src/Validator/Bypass.antt =====
-- When handleKeySign signs without the validation: a sign id that has its signature already.
use tss_server.Prelude.{
  Text, String, ◌<◌, Bool, true, false, List, Result, ok, err, length, ltb, ◌≡◌, refl, ap, ◌∙◌,
  arith, Option, none, some,
}
use tss_server.Proto.{key_sign_start, KeyData, PartyId, TssP2PMsg, KeySignPrepareMsg}
use tss_server.Validator.{Sign, check_sign, key_sign_validate}
use tss_server.Storage.Contract.{LocalStorage}
use tss_server.Manager.{get_key_data_by_key_id_and_key_session_id_from_storage}
use tss_server.Session.{TssLib, find_party, sorted_parties}
use tss_server.KeySign.Party.{
  SignLib, Environment, validate, after_read, after_validate, after_json, after_ready, on_start,
  run_session, handle_key_sign0,
}

module _ (lib : TssLib) (signs : SignLib) (st : LocalStorage)
    (invalid_msg_type : TssP2PMsg → String) where
  abbrev Env : Type 0
  Env = Environment lib signs st invalid_msg_type

  abbrev in_dev : Env → Env
  in_dev env = record env { dev = true }

  -- Behind the validation the handler does not ask whether it is in development.
  run_session-in_dev :
      (env : Env) (m : KeySignPrepareMsg) (d : KeyData) (save_data : signs.SaveData)
      (all : List PartyId) (o : Option lib.PartyId)
      → run_session lib signs st invalid_msg_type env m d save_data all o
        ≡ run_session lib signs st invalid_msg_type (in_dev env) m d save_data all o
  unfolding run_session
  run_session-in_dev env m d save_data all none = refl
  run_session-in_dev env m d save_data all (some p) = refl

  on_start-in_dev :
      (env : Env) (m : KeySignPrepareMsg) (d : KeyData) (save_data : signs.SaveData)
      (r : Result TssP2PMsg)
      → on_start lib signs st invalid_msg_type env m d save_data r
        ≡ on_start lib signs st invalid_msg_type (in_dev env) m d save_data r
  unfolding on_start
  on_start-in_dev env m d save_data (err e) = refl
  on_start-in_dev env m d save_data (ok (key_sign_start s)) =
      run_session-in_dev env m d save_data s.sign_party_id
        (find_party lib (sorted_parties lib s.sign_party_id) env.local_id)
  on_start-in_dev env m d save_data (ok p) = refl

  after_ready-in_dev :
      (env : Env) (m : KeySignPrepareMsg) (d : KeyData) (save_data : signs.SaveData)
      (o : Option String)
      → after_ready lib signs st invalid_msg_type env m d save_data o
        ≡ after_ready lib signs st invalid_msg_type (in_dev env) m d save_data o
  unfolding after_ready
  after_ready-in_dev env m d save_data (some e) = refl
  after_ready-in_dev env m d save_data none = on_start-in_dev env m d save_data env.start

  after_json-in_dev :
      (env : Env) (m : KeySignPrepareMsg) (d : KeyData) (r : Result signs.SaveData)
      → after_json lib signs st invalid_msg_type env m d r
        ≡ after_json lib signs st invalid_msg_type (in_dev env) m d r
  unfolding after_json
  after_json-in_dev env m d (err e) = refl
  after_json-in_dev env m d (ok save_data) = after_ready-in_dev env m d save_data env.ready_error

  after_read-in_dev :
      (env : Env) (m : KeySignPrepareMsg) (r : Result (Option KeyData))
      → validate lib signs st invalid_msg_type env m ≡ ok tt
      → after_read lib signs st invalid_msg_type env m r
        ≡ after_read lib signs st invalid_msg_type (in_dev env) m r
  unfolding after_read after_validate validate
  after_read-in_dev env m (err e) valid = refl
  after_read-in_dev env m (ok none) valid = refl
  after_read-in_dev env m (ok (some d)) valid =
      ap (after_validate lib signs st invalid_msg_type env m d) valid
      ∙ after_json-in_dev env m d (signs.unmarshal d.save_data_json)

  -- For a sign id that has a signature already, handleKeySign0 does what it does in development,
  -- where nothing is validated, whatever the key and the message of the request: it is not in
  -- development, and its validator is KeySignValidate.
  pub signed_id_skips_validation :
      (equal_fold : Text → Text → Bool) (get_sign_info : Text → Result Sign)
      (env : Environment lib signs st invalid_msg_type) (s : st.State) (m : KeySignPrepareMsg)
      (info : Sign)
      → env.dev ≡ false
      → env.key_sign_validate ≡ key_sign_validate equal_fold get_sign_info
      → get_sign_info m.sign_id ≡ ok info
      → 0 < length info.signature
      → handle_key_sign0 lib signs st invalid_msg_type env s m
        ≡ handle_key_sign0 lib signs st invalid_msg_type (record env { dev = true }) s m
  unfolding handle_key_sign0 key_sign_validate check_sign validate
  signed_id_skips_validation equal_fold get_sign_info env s m info checked validator found signed =
      let some_signature : ltb 0 (length info.signature) ≡ true = ground arith in
      after_read-in_dev env m
        (get_key_data_by_key_id_and_key_session_id_from_storage st s m.key_id m.key_session_id)
        (rw (checked, validator, found, some_signature))
