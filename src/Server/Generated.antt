-- ===== src/Server/Generated.antt =====
-- What becomes of a generated key on a server that goes on.
use tss_server.Prelude.{
  Text, text, true, inl, Option, none, some, List, [], ◌∷◌, ◌++◌, All, last_injective, Result, ok,
  ◌≡◌, sym, ap, ◌∙◌, subst, has_prefix,
}
use mathlib.Core.List.{append_cancel_left}
use tss_server.Proto.{
  KeyData, KeyGenPrepareMsg, KeyGenFinishMsg, key_gen_prepare, key_gen_finish, ready,
}
use tss_server.Storage.{db_key, key_prefix}
use tss_server.Storage.Contract.{LocalStorage}
use tss_server.Manager.{get_latest_ready_key_data_by_key_id_from_storage}
use tss_server.Manager.Keys.{NoColon, IsUnder-own, IsLatestUnder, get_latest_ready_lem}
use tss_server.Manager.Lifecycle.{Stored, Reach, Reach-IsSound, has_prefix-db_key}
use tss_server.Manager.Lifecycle.OneLive.{AtMostOneLive, Reach-AtMostOneLive}
use tss_server.Manager.Lifecycle.Transitions.{Reach-ready}
use tss_server.Manager.Rpc.{response, get_key, key_response}
use tss_server.Session.{Action, reply}
use tss_server.KeyGen.Party.{Environment, Run, returned, handle_key_gen}
use tss_server.KeyGen.Party.Settled.{TakesWrites, IsReady}
use tss_server.KeyGen.Party.Report.{handle_key_gen-EndsReported}
use tss_server.KeyGen.Party.Refines.{IsInterleaved, Reach-handle_key_gen}
use tss_server.Server.{Libraries, Manager, Request, key_gen_stream, key_gen_seat, serve, serve_all}
use tss_server.Server.Consistent.{IsFair, Reach-serve_all}

-- A record under two ids of which the first has no colon has these ids.
own_ids :
    (k j : Text) (d : KeyData)
    → NoColon k
    → NoColon d.key_id
    → db_key d.key_id d.key_session_id ≡ db_key k j
    → (d.key_id ≡ k) × (d.key_session_id ≡ j)
unfolding db_key
own_ids k j d plain d_plain own =
    let same : d.key_id ≡ k =
      IsUnder-own k d plain d_plain
        (subst (λ x. has_prefix x (key_prefix k) ≡ true) (sym own) (has_prefix-db_key k j)) in
    (
      same,
      append_cancel_left (k ++ text ":") d.key_session_id j
          (sym (ap (λ x. x ++ text ":" ++ d.key_session_id) same) ∙ own),
    )

module _ (st : LocalStorage) where
  open st use {State, IsSound}

  -- Where no key id has a colon or two live records, a READY record of a key id is what a lookup of
  -- the key id finds.
  pub get_latest_ready-only :
      (s : State) (d : KeyData)
      → IsSound s
      → AtMostOneLive st s
      → ((e : KeyData) → Stored st s e → NoColon e.key_id)
      → Stored st s d
      → d.status ≡ ready
      → get_latest_ready_key_data_by_key_id_from_storage st s d.key_id ≡ ok (some d)
  get_latest_ready-only s d sound one plain stored is_ready =
      let (o, read, latest) = get_latest_ready_lem st s d.key_id sound in
      read ∙ ap ok (by_record o latest)
    where
      by_record : (o : Option KeyData) → IsLatestUnder st s d.key_id o → o ≡ some d
      by_record none nobody =
          absurd (nobody d stored (has_prefix-db_key d.key_id d.key_session_id) is_ready)
      by_record (some e) (e_stored, under, e_ready, _) = ap some (
          one e d e_stored stored (IsUnder-own d.key_id e (plain d stored) (plain e e_stored) under)
            (inl e_ready) (inl is_ready))

  -- A READY record that was read under two ids stays, and the first of these selects it.
  pub stays_under :
      (s t : State) (k j : Text) (d : KeyData)
      → IsSound s
      → Reach st s t
      → st.get_key_data_by_key_id_and_key_session_id s k j ≡ ok (some d)
      → d.status ≡ ready
      → Stored st t d × (has_prefix (db_key d.key_id d.key_session_id) (key_prefix k) ≡ true)
  stays_under s t k j d sound reached at is_ready =
      let own = st.get_own_key s k j d sound at in
      (
        Reach-ready st d sound reached (st.get_same_key s d.key_id d.key_session_id k j own ∙ at)
            is_ready,
        subst (λ x. has_prefix x (key_prefix k) ≡ true) (sym own) (has_prefix-db_key k j),
      )

  -- A READY record under two ids is what a lookup finds, whatever generations start, finish or fail
  -- later.
  key_stays :
      (s t : State) (k j pub_key : Text)
      → IsSound s
      → AtMostOneLive st s
      → Reach st s t
      → NoColon k
      → ((e : KeyData) → Stored st t e → NoColon e.key_id)
      → IsReady st s k j pub_key
      → (d : KeyData) × (get_latest_ready_key_data_by_key_id_from_storage st t k ≡ ok (some d))
        × (d.key_session_id ≡ j)
        × (d.pubkey ≡ pub_key)
        × (d.status ≡ ready)
  key_stays s t k j pub_key sound one reached plain all_plain (d, at, is_ready, key) =
      let own = st.get_own_key s k j d sound at in
      let stored =
        Reach-ready st d sound reached (st.get_same_key s d.key_id d.key_session_id k j own ∙ at)
          is_ready in
      let (same_id, same_session) = own_ids k j d plain (all_plain d stored) own in
      let found =
        get_latest_ready-only t d (Reach-IsSound st sound reached)
          (Reach-AtMostOneLive st sound one reached) all_plain stored is_ready in
      (
        d,
        subst (λ i. get_latest_ready_key_data_by_key_id_from_storage st t i ≡ ok (some d)) same_id
            found,
        same_session,
        key,
        is_ready,
      )

module _ (libs : Libraries) (st : LocalStorage) where
  open st use {State, IsSound}

  -- What a party does with a stream that asks for a key.
  abbrev pub generation :
      Manager libs st
      → Environment libs.lib libs.keys st libs.invalid_msg_type
      → KeyGenPrepareMsg
      → Run libs.lib libs.keys st libs.invalid_msg_type
  generation m env prepare =
      handle_key_gen libs.lib libs.keys st libs.invalid_msg_type (key_gen_seat libs st m env)
        m.local_storage (ok (key_gen_prepare prepare))

  -- The storage behind such a stream and further requests.
  abbrev pub storage_after :
      Manager libs st
      → Environment libs.lib libs.keys st libs.invalid_msg_type
      → KeyGenPrepareMsg
      → List (Request libs st)
      → State
  storage_after m env prepare later =
      (serve_all libs st m
        (key_gen_stream env (ok (key_gen_prepare prepare)) ∷ later)).local_storage

  -- What a call of handleKeyGen tells of a success is true of the storage.
  pub told-IsReady :
      (m : Manager libs st) (env : Environment libs.lib libs.keys st libs.invalid_msg_type)
      (prepare : KeyGenPrepareMsg) (res : Result KeyGenFinishMsg) (f : KeyGenFinishMsg)
      (before : List (Action libs.lib))
      → TakesWrites st
      → IsSound m.local_storage
      → IsInterleaved libs.lib libs.keys st libs.invalid_msg_type env
      → (generation m env prepare).answer ≡ returned res
      → (generation m env prepare).actions ≡ before ++ reply (key_gen_finish f) ∷ []
      → f.is_success ≡ true
      → IsReady st (generation m env prepare).storage prepare.key_id prepare.session_id f.public_key
  told-IsReady m env prepare res f before takes sound interleaved answered told success =
      let (g, before', ends, reported) =
        handle_key_gen-EndsReported libs.lib libs.keys st libs.invalid_msg_type
          (key_gen_seat libs st m env) m.local_storage prepare res takes
          (λ s s_sound. Reach-IsSound st s_sound (interleaved.0 s))
          (λ s s_sound. Reach-IsSound st s_sound (interleaved.1 s)) sound answered in
      let replies =
        last_injective before' before (reply (key_gen_finish g)) (reply (key_gen_finish f))
          (sym ends ∙ told) in
      let same : g ≡ f = cc replies in
      subst
        (λ (x : KeyGenFinishMsg).
          x.is_success ≡ true
          → IsReady st (generation m env prepare).storage prepare.key_id prepare.session_id
              x.public_key)
        same reported.1 success

  -- Once a call of handleKeyGen that returns has told its coordinator of a success, GetKey
  -- replies with the key that it told, whatever requests the server serves later, and KeySign
  -- finds the record of that session. It holds where the storage takes every write, is sound and
  -- has no key id with two live records before the call, what others do within a generation is to
  -- start, finish and fail generations, and neither the key id nor one that is stored in the end
  -- has a colon.
  pub generated_key_stays :
      (m : Manager libs st) (env : Environment libs.lib libs.keys st libs.invalid_msg_type)
      (prepare : KeyGenPrepareMsg) (res : Result KeyGenFinishMsg) (f : KeyGenFinishMsg)
      (before : List (Action libs.lib)) (later : List (Request libs st))
      → TakesWrites st
      → IsSound m.local_storage
      → AtMostOneLive st m.local_storage
      → IsInterleaved libs.lib libs.keys st libs.invalid_msg_type env
      → All (IsFair libs st) later
      → (generation m env prepare).answer ≡ returned res
      → (generation m env prepare).actions ≡ before ++ reply (key_gen_finish f) ∷ []
      → f.is_success ≡ true
      → NoColon prepare.key_id
      → ((e : KeyData) → Stored st (storage_after m env prepare later) e → NoColon e.key_id)
      → (d : KeyData) × (get_latest_ready_key_data_by_key_id_from_storage st
            (storage_after m env prepare later)
            prepare.key_id
          ≡ ok (some d))
        × (d.key_session_id ≡ prepare.session_id)
        × (d.pubkey ≡ f.public_key)
        × (get_key libs.errorf st (storage_after m env prepare later) prepare.key_id
            ≡ response (record {
              key_id = prepare.key_id;
              public_key = f.public_key;
              threshold = d.threshold;
              all_party_id = d.all_party_id;
              status = ready;
            }))
  unfolding serve_all serve get_key
  generated_key_stays m env prepare res f before later takes sound one interleaved fair answered
        told success plain all_plain =
      let told_key =
        told-IsReady m env prepare res f before takes sound interleaved answered told success in
      let first =
        Reach-handle_key_gen libs.lib libs.keys st libs.invalid_msg_type
          (key_gen_seat libs st m env) m.local_storage (ok (key_gen_prepare prepare)) interleaved in
      let rest =
        Reach-serve_all libs st (record m { local_storage = (generation m env prepare).storage })
          later fair in
      let (d, found, session, key, is_ready) =
        key_stays st _ _ prepare.key_id prepare.session_id f.public_key
          (Reach-IsSound st sound first) (Reach-AtMostOneLive st sound one first) rest plain
          all_plain told_key in
      (d, found, session, key, rw (found, key_response, key, is_ready))
