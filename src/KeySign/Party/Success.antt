-- ===== src/KeySign/Party/Success.antt =====
-- A call of handleKeySign that goes well: what it replies.
use tss_server.Prelude.{String, false, none, some, List, [], ◌∷◌, ◌++◌, ok, ◌≡◌, refl}
use tss_server.Prelude.BigInt.{set_bytes}
use tss_server.Proto.{
  TssP2PMsg, KeyData, KeySignPrepareMsg, PartyId, key_sign_prepare, key_sign_start, key_sign_ready,
  key_sign_finish,
}
use tss_server.Proto.Getters.{get_key_sign_prepare_msg}
use tss_server.Storage.Contract.{LocalStorage}
use tss_server.Manager.{get_key_data_by_key_id_and_key_session_id_from_storage}
use tss_server.Session.{TssLib, Ending, event_loop, find_party, sorted_parties, reply}
use tss_server.KeySign.Party.{
  SignLib, Environment, Job, Run, returned, signed, end_session, run_session, on_start, after_ready,
  after_json, validate, after_validate, after_read, handle_key_sign0, conclude, handle_key_sign,
}

module _ (lib : TssLib) (signs : SignLib) (st : LocalStorage)
    (invalid_msg_type : TssP2PMsg → String) where
  open st use {State}

  -- What the local party is made with.
  abbrev pub job_of :
      KeySignPrepareMsg
      → KeyData
      → signs.SaveData
      → List PartyId
      → lib.PartyId
      → Job lib signs st invalid_msg_type
  job_of m key_data save_data all local_party = record {
    msg = set_bytes m.sign_msg;
    parties = sorted_parties lib all;
    local_party = local_party;
    threshold = key_data.threshold;
    save_data = save_data;
  }

  -- When a prepare message names a stored record whose save data parses, the validator takes the
  -- request, a start message follows that names this party, and the local party of tss-lib that is
  -- made of these comes to its end, then handleKeySign replies that it is ready, what its session
  -- makes, and the signature, which it returns.
  pub handle_key_sign-success :
      (env : Environment lib signs st invalid_msg_type) (s : State) (m : KeySignPrepareMsg)
      (key_data : KeyData) (save_data : signs.SaveData) (all : List PartyId) (p : lib.PartyId)
      (signature : signs.SignatureData)
      → st.get_key_data_by_key_id_and_key_session_id s m.key_id m.key_session_id
        ≡ ok (some key_data)
      → validate lib signs st invalid_msg_type env m ≡ ok tt
      → signs.unmarshal key_data.save_data_json ≡ ok save_data
      → env.ready_error ≡ none
      → env.start ≡ ok (key_sign_start (record { sign_party_id = all }))
      → find_party lib (sorted_parties lib all) env.local_id ≡ some p
      → (event_loop lib
          (record { local_id = env.local_id; all = all; close_ends = false })
          (env.events (job_of m key_data save_data all p))).1
        ≡ Ending.ended signature
      → let run : Run lib signs st invalid_msg_type =
          handle_key_sign lib signs st invalid_msg_type env s (ok (key_sign_prepare m)) in
        let told = signed lib signs st invalid_msg_type signature in
        (run.answer ≡ returned (ok told))
        × (run.actions
            ≡ reply key_sign_ready
              ∷ ((event_loop lib
                    (record { local_id = env.local_id; all = all; close_ends = false })
                    (env.events (job_of m key_data save_data all p))).0
                  ++ reply (key_sign_finish told) ∷ []))
  unfolding handle_key_sign get_key_sign_prepare_msg handle_key_sign0 conclude after_read
      after_validate after_json after_ready on_start run_session end_session
      get_key_data_by_key_id_and_key_session_id_from_storage
  handle_key_sign-success env s m key_data save_data all p signature at valid parsed no_error starts
        found loops =
      rw (at, valid, parsed, no_error, starts, found, loops) (refl, refl)
