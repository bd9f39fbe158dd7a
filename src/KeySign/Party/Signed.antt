-- ===== src/KeySign/Party/Signed.antt =====
-- What a signature shows that a party reports.
use tss_server.Prelude.{
  Text, String, true, false, Bool-cases, inl, inr, ◌⊎◌, Option, none, some, List, [], ◌∷◌, ◌++◌,
  Result, ok, err, ◌≡◌, refl, ap, ◌∙◌,
}
use tss_server.Prelude.BigInt.{set_bytes}
use tss_server.Proto.{
  TssP2PMsg, PartyId, KeyData, KeySignPrepareMsg, KeySignFinishMsg, key_sign_prepare,
  key_sign_start, key_sign_cancel, key_sign_finish,
}
use tss_server.Proto.Getters.{get_key_sign_prepare_msg}
use tss_server.Storage.Contract.{LocalStorage}
use tss_server.Manager.{get_key_data_by_key_id_and_key_session_id_from_storage}
use tss_server.Session.{TssLib, Action, reply, event_loop, find_party, sorted_parties, Ending}
use tss_server.KeySign.Party.{
  SignLib, Answer, waiting, returned, Job, Environment, failure, signed, end_session, run_session,
  on_start, after_ready, after_json, validate, after_validate, after_read, handle_key_sign0,
  conclude, handle_key_sign,
}

module _ (lib : TssLib) (signs : SignLib) (st : LocalStorage)
    (invalid_msg_type : TssP2PMsg → String) where
  open st use {State}

  abbrev Env : Type 0
  Env = Environment lib signs st invalid_msg_type

  -- The local party made the signature of a finish message: of the number whose big endian bytes
  -- are the message of the prepare message, with the threshold and the parsed save data of the
  -- stored record that the prepare message names, among the sorted parties of a start message, of
  -- which this one is one; the validator, unless in development, took the request.
  abbrev pub IsSignedFor : Env → State → KeySignPrepareMsg → KeySignFinishMsg → Type 0
  IsSignedFor env s m f =
      (key_data : KeyData) × (st.get_key_data_by_key_id_and_key_session_id s m.key_id
          m.key_session_id
        ≡ ok (some key_data))
      × ((env.dev ≡ true)
          ⊎ ((found : Text) × (env.key_sign_validate m.sign_id m.key_id m.sign_msg ≡ ok found)))
      × (job : Job lib signs st invalid_msg_type) × (job.msg ≡ set_bytes m.sign_msg)
      × (job.threshold ≡ key_data.threshold)
      × (signs.unmarshal key_data.save_data_json ≡ ok job.save_data)
      × (all : List PartyId) × (env.start ≡ ok (key_sign_start (record { sign_party_id = all })))
      × (job.parties ≡ sorted_parties lib all)
      × (find_party lib (sorted_parties lib all) env.local_id ≡ some job.local_party)
      × (signature : signs.SignatureData) × ((event_loop lib
            (record { local_id = env.local_id; all = all; close_ends = false }) (env.events job)).1
          ≡ Ending.ended signature)
      × (f ≡ signed lib signs st invalid_msg_type signature)

  abbrev IsFromJob : Env → KeySignPrepareMsg → KeyData → signs.SaveData → KeySignFinishMsg → Type 0
  IsFromJob env m key_data save_data f =
      (job : Job lib signs st invalid_msg_type) × (job.msg ≡ set_bytes m.sign_msg)
      × (job.threshold ≡ key_data.threshold)
      × (save_data ≡ job.save_data)
      × (all : List PartyId) × (env.start ≡ ok (key_sign_start (record { sign_party_id = all })))
      × (job.parties ≡ sorted_parties lib all)
      × (find_party lib (sorted_parties lib all) env.local_id ≡ some job.local_party)
      × (signature : signs.SignatureData) × ((event_loop lib
            (record { local_id = env.local_id; all = all; close_ends = false }) (env.events job)).1
          ≡ Ending.ended signature)
      × (f ≡ signed lib signs st invalid_msg_type signature)

  end_session-signed :
      (acts : List (Action lib)) (ending : Ending lib signs.SignatureData) (f : KeySignFinishMsg)
      → (end_session lib signs st invalid_msg_type acts ending).answer ≡ returned (ok f)
      → f.is_success ≡ true
      → (signature : signs.SignatureData) × (ending ≡ Ending.ended signature)
        × (f ≡ signed lib signs st invalid_msg_type signature)
  unfolding end_session failure
  end_session-signed acts Ending.waiting f h success = cc
  end_session-signed acts (Ending.returned e) f h success = cc
  end_session-signed acts (Ending.peer_failed e) f h success =
      let same : failure e ≡ f = cc h in cc (ap (λ x. x.is_success) same ∙ success)
  end_session-signed acts (Ending.ended signature) f h success = (signature, refl, cc)

  run_session-signed :
      (env : Env) (m : KeySignPrepareMsg) (key_data : KeyData) (save_data : signs.SaveData)
      (all : List PartyId) (o : Option lib.PartyId) (f : KeySignFinishMsg)
      → find_party lib (sorted_parties lib all) env.local_id ≡ o
      → env.start ≡ ok (key_sign_start (record { sign_party_id = all }))
      → (run_session lib signs st invalid_msg_type env m key_data save_data all o).answer
        ≡ returned (ok f)
      → f.is_success ≡ true
      → IsFromJob env m key_data save_data f
  unfolding run_session
  run_session-signed env m key_data save_data all none f at start h success = cc
  run_session-signed env m key_data save_data all (some p) f at start h success =
      let (signature, ended, same) = end_session-signed _ _ f h success in
      (
        record {
          msg = set_bytes m.sign_msg;
          parties = sorted_parties lib all;
          local_party = p;
          threshold = key_data.threshold;
          save_data = save_data;
        },
        refl,
        refl,
        refl,
        all,
        start,
        refl,
        at,
        signature,
        ended,
        same,
      )

  on_start-signed :
      (env : Env) (m : KeySignPrepareMsg) (key_data : KeyData) (save_data : signs.SaveData)
      (r : Result TssP2PMsg) (f : KeySignFinishMsg)
      → env.start ≡ r
      → (on_start lib signs st invalid_msg_type env m key_data save_data r).answer ≡ returned (ok f)
      → f.is_success ≡ true
      → IsFromJob env m key_data save_data f
  unfolding on_start failure
  on_start-signed env m key_data save_data (err e) f start h success = cc
  on_start-signed env m key_data save_data (ok (key_sign_start s)) f start h success =
      run_session-signed env m key_data save_data s.sign_party_id _ f refl start h success
  on_start-signed env m key_data save_data (ok key_sign_cancel) f start h success =
      let same : failure "key sign canceled" ≡ f = cc h in
      cc (ap (λ x. x.is_success) same ∙ success)
  on_start-signed env m key_data save_data (ok p) f start h success = cc

  validate-ok :
      (env : Env) (m : KeySignPrepareMsg) {u : Unit {0}}
      → validate lib signs st invalid_msg_type env m ≡ ok u
      → (env.dev ≡ true)
        ⊎ ((found : Text) × (env.key_sign_validate m.sign_id m.key_id m.sign_msg ≡ ok found))
  unfolding validate
  validate-ok env m {u} valid = elim (Bool-cases env.dev) [
    | inl dev ↦ inl dev
    | inr checked ↦
        inr (
          by_answer (env.key_sign_validate m.sign_id m.key_id m.sign_msg) refl
            (rw checked at valid))
  ]
    where
      by_answer :
          (x : Result Text)
          → env.key_sign_validate m.sign_id m.key_id m.sign_msg ≡ x
          → (elim x as (λ _. Result (Unit {0})) [ err e ↦ err e | ok signature ↦ ok tt ]) ≡ ok u
          → (found : Text) × (env.key_sign_validate m.sign_id m.key_id m.sign_msg ≡ ok found)
      by_answer (err e) at h = cc
      by_answer (ok found) at h = (found, at)

  after_read-signed :
      (env : Env) (s : State) (m : KeySignPrepareMsg) (r : Result (Option KeyData))
      (f : KeySignFinishMsg)
      → st.get_key_data_by_key_id_and_key_session_id s m.key_id m.key_session_id ≡ r
      → (after_read lib signs st invalid_msg_type env m r).answer ≡ returned (ok f)
      → f.is_success ≡ true
      → IsSignedFor env s m f
  unfolding after_read after_validate after_json after_ready
  after_read-signed env s m (err e) f at h success = cc
  after_read-signed env s m (ok none) f at h success = cc
  after_read-signed env s m (ok (some key_data)) f at h success =
      by_validate (validate lib signs st invalid_msg_type env m) refl h
    where
      by_ready :
          (save_data : signs.SaveData) (o : Option String)
          → (after_ready lib signs st invalid_msg_type env m key_data save_data o).answer
            ≡ returned (ok f)
          → IsFromJob env m key_data save_data f
      by_ready save_data (some e) g = cc
      by_ready save_data none g =
          on_start-signed env m key_data save_data env.start f refl g success

      IsValidated : Type 0
      IsValidated =
          (env.dev ≡ true)
          ⊎ ((found : Text) × (env.key_sign_validate m.sign_id m.key_id m.sign_msg ≡ ok found))

      by_json :
          (x : Result signs.SaveData)
          → IsValidated
          → signs.unmarshal key_data.save_data_json ≡ x
          → (after_json lib signs st invalid_msg_type env m key_data x).answer ≡ returned (ok f)
          → IsSignedFor env s m f
      by_json (err e) valid parsed g = cc
      by_json (ok save_data) valid parsed g =
          let (job, hm, ht, hs, all, start, hp, found, signature, ended, same) =
            by_ready save_data env.ready_error g in
          (
            key_data,
            at,
            valid,
            job,
            hm,
            ht,
            parsed ∙ ap ok hs,
            all,
            start,
            hp,
            found,
            signature,
            ended,
            same,
          )

      by_validate :
          (x : Result (Unit {0}))
          → validate lib signs st invalid_msg_type env m ≡ x
          → (after_validate lib signs st invalid_msg_type env m key_data x).answer ≡ returned (ok f)
          → IsSignedFor env s m f
      by_validate (err e) valid g = cc
      by_validate (ok u) valid g =
          by_json (signs.unmarshal key_data.save_data_json) (validate-ok env m valid) refl g

  conclude-ok :
      (acts : List (Action lib)) (a : Answer) (f : KeySignFinishMsg)
      → (conclude lib signs st invalid_msg_type acts a).answer ≡ returned (ok f)
      → (a ≡ returned (ok f))
        × ((conclude lib signs st invalid_msg_type acts a).actions
            ≡ acts ++ reply (key_sign_finish f) ∷ [])
  unfolding conclude
  conclude-ok acts waiting f h = cc
  conclude-ok acts (returned (ok g)) f h =
      let same : g ≡ f = cc h in (h, ap (λ x. acts ++ reply (key_sign_finish x) ∷ []) same)
  conclude-ok acts (returned (err e)) f h = cc

  -- When a call of handleKeySign reports a signature, tss-lib made it of the number whose big
  -- endian bytes are the message of the prepare message, with the threshold and the save data of
  -- the stored record that the prepare message names, among just the parties of the start message,
  -- sorted, one of which is this one; the validator took the request, unless in development; and
  -- the last reply is the signature.
  pub handle_key_sign-IsSignedFor :
      (env : Environment lib signs st invalid_msg_type) (s : State) (m : KeySignPrepareMsg)
      (f : KeySignFinishMsg)
      → (handle_key_sign lib signs st invalid_msg_type env s (ok (key_sign_prepare m))).answer
        ≡ returned (ok f)
      → f.is_success ≡ true
      → IsSignedFor env s m f
        × (told : List (Action lib)) × ((handle_key_sign lib signs st invalid_msg_type env s
              (ok (key_sign_prepare m))).actions
            ≡ told ++ reply (key_sign_finish f) ∷ [])
  unfolding handle_key_sign get_key_sign_prepare_msg handle_key_sign0
      get_key_data_by_key_id_and_key_session_id_from_storage
  handle_key_sign-IsSignedFor env s m f h success =
      let (answer, replied) = conclude-ok _ _ f h in
      (after_read-signed env s m _ f refl answer success, _, replied)
