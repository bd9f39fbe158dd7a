-- ===== src/KeyGen/Player.antt =====
-- The parties of a generation that goes well, on the other ends of the coordinator's streams.
use tss_server.Prelude.{
  suc, Text, String, true, none, some, List, [], ◌∷◌, ◌++◌, length, map, All, ok, ◌≡◌, refl, ap,
  ◌∙◌, subst,
}
use tss_server.Proto.{
  TssP2PMsg, KeyGenPrepareMsg, KeyGenFinishMsg, key_gen_prepare, key_gen_ready, key_gen_start,
  key_gen_finish,
}
use tss_server.Storage.Contract.{LocalStorage}
use tss_server.P2p.{P2PStream, Exchange}
use tss_server.P2p.StreamMap.{HasId}
use tss_server.Session.{TssLib, Ending, event_loop}
use tss_server.Session.Replies.{replies, replies_around, first_of, second_of, event_loop-no_replies}
use tss_server.KeyGen
use tss_server.KeyGen.{
  Report, failed, ready, prepare_party, prepare_reply, Outcome, finished, start_party, start_reply,
  prepare_msg, generated, key_gen,
}
use tss_server.KeyGen.Party.{KeyLib, Environment, Run, convert_pub_key, handle_key_gen, validate}
use tss_server.KeyGen.Party.Settled.{TakesWrites}
use tss_server.KeyGen.Party.Success.{IsFree, finished_record, handle_key_gen-success}

-- What the goroutines of the coordinator hand over, as the loops take it.
abbrev pub ready_event : Report → KeyGen.Event P2PStream
ready_event (failed e) = KeyGen.Event.error e
ready_event (ready p) = KeyGen.Event.value p

abbrev pub finish_event : Outcome → KeyGen.Event KeyGenFinishMsg
finish_event (Outcome.failed e) = KeyGen.Event.error e
finish_event (finished f) = KeyGen.Event.value f

module _ (lib : TssLib) (keys : KeyLib) (st : LocalStorage)
    (invalid_msg_type : TssP2PMsg → String) where
  open st use {State, IsSound}

  -- A party, with its end of the stream, its storage, and what its tss-lib makes.
  pub record Player : Type 0 where
    pub stream : P2PStream
    pub env : Environment lib keys st invalid_msg_type
    pub before : State
    pub save_data : keys.SaveData
    pub json : Text
    pub pub_key : keys.PubKey

  abbrev pub key_of : Player → Text
  key_of x = keys.serialize_compressed x.pub_key

  abbrev pub told : Player → KeyGenFinishMsg
  told x = record { is_success = true; failure_reason = ""; public_key = key_of x }

  abbrev pub play : KeyGenPrepareMsg → Player → Run lib keys st invalid_msg_type
  play m x = handle_key_gen lib keys st invalid_msg_type x.env x.before (ok (key_gen_prepare m))

  -- The party can take part, the start message comes, and its tss-lib ends with its save data.
  abbrev pub GoesWell : KeyGenPrepareMsg → Player → Type 0
  GoesWell m x =
      IsSound x.before
      × IsFree st x.before m.key_id
      × (validate lib keys st invalid_msg_type x.env m ≡ none)
      × (x.env.ready_error ≡ none)
      × (x.env.start ≡ ok key_gen_start)
      × HasId x.env.local_id m.all_party_id
      × (x.env.pre_params_made ≡ true)
      × ((event_loop lib
            (record { local_id = x.env.local_id; all = m.all_party_id; close_ends = true })
            x.env.events).1
          ≡ Ending.ended x.save_data)
      × (keys.marshal x.save_data ≡ ok x.json)
      × (convert_pub_key keys x.save_data ≡ ok x.pub_key)
      × ((t : State)
          → st.get_key_data_by_key_id_and_key_session_id (x.env.meanwhile t) m.key_id m.session_id
            ≡ st.get_key_data_by_key_id_and_key_session_id t m.key_id m.session_id)

  -- The coordinator's end of a stream on which every call goes well.
  abbrev pub exchange : KeyGenPrepareMsg → Player → Exchange
  exchange m x = record {
    opened = ok x.stream;
    prepare_refused = none;
    prepare_reply = first_of (replies lib (play m x).actions);
    start_refused = none;
    start_reply = second_of (replies lib (play m x).actions);
  }

  -- What a party holds in the end.
  abbrev pub Holds : KeyGenPrepareMsg → Text → Player → Type 0
  Holds m key x =
      st.get_key_data_by_key_id_and_key_session_id (play m x).storage m.key_id m.session_id
      ≡ ok (some (finished_record st m x.env.created_time x.env.updated_time key x.json))

  pub plays :
      (m : KeyGenPrepareMsg) (x : Player)
      → TakesWrites st
      → GoesWell m x
      → Holds m (key_of x) x
        × (replies lib (play m x).actions ≡ key_gen_ready ∷ key_gen_finish (told x) ∷ [])
  plays m x takes
        (sound, free, valid, no_error, starts, among, made, loops, marshalled, converted, alone) =
      let (_, holds, acts) =
        handle_key_gen-success lib keys st invalid_msg_type x.env x.before m x.save_data x.json
          x.pub_key takes sound free valid no_error starts among made loops marshalled converted
          alone in
      (
        holds,
        ap (replies lib) acts
            ∙ replies_around lib key_gen_ready (key_gen_finish (told x))
                (event_loop lib
                  (record { local_id = x.env.local_id; all = m.all_party_id; close_ends = true })
                  x.env.events).0
                (event_loop-no_replies lib keys.SaveData
                  (record { local_id = x.env.local_id; all = m.all_party_id; close_ends = true })
                  x.env.events),
      )

  prepared :
      (m : KeyGenPrepareMsg) (x : Player)
      → TakesWrites st
      → GoesWell m x
      → prepare_party invalid_msg_type (exchange m x) ≡ ready x.stream
  unfolding prepare_party prepare_reply
  prepared m x takes well = let (_, said) = plays m x takes well in rw said

  reported :
      (m : KeyGenPrepareMsg) (x : Player)
      → TakesWrites st
      → GoesWell m x
      → start_party invalid_msg_type (exchange m x) ≡ finished (told x)
  unfolding start_party start_reply
  reported m x takes well = let (_, said) = plays m x takes well in rw said

  -- What the two loops of the coordinator take, the parties being in the order in which they come
  -- to be ready, and in the order in which they come to an end.
  abbrev pub readies : KeyGenPrepareMsg → List Player → List (KeyGen.Event P2PStream)
  readies m xs = map (λ x. ready_event (prepare_party invalid_msg_type (exchange m x))) xs

  abbrev pub finishes : KeyGenPrepareMsg → List Player → List (KeyGen.Event KeyGenFinishMsg)
  finishes m xs = map (λ x. finish_event (start_party invalid_msg_type (exchange m x))) xs

  pub readies-streams :
      (m : KeyGenPrepareMsg) (xs : List Player)
      → TakesWrites st
      → All (GoesWell m) xs
      → readies m xs ≡ map KeyGen.Event.value (map (λ (x : Player). x.stream) xs)
  readies-streams m [] takes well = refl
  readies-streams m (x ∷ xs) takes (one, well) =
      let now = prepared m x takes one in
      let rest = readies-streams m xs takes well in rw (now, rest)

  pub finishes-told :
      (m : KeyGenPrepareMsg) (xs : List Player)
      → TakesWrites st
      → All (GoesWell m) xs
      → finishes m xs ≡ map KeyGen.Event.value (map told xs)
  finishes-told m [] takes well = refl
  finishes-told m (x ∷ xs) takes (one, well) =
      let now = reported m x takes one in let rest = finishes-told m xs takes well in rw (now, rest)

  pub told_success :
      (xs : List Player) → All (λ (f : KeyGenFinishMsg). f.is_success ≡ true) (map told xs)
  told_success [] = tt
  told_success (x ∷ xs) = (refl, told_success xs)

  pub length-told : (xs : List Player) → length (map told xs) ≡ length xs
  length-told [] = refl
  length-told (x ∷ xs) = ap suc (length-told xs)

  pub length-streams : (xs : List Player) → length (map (λ (x : Player). x.stream) xs) ≡ length xs
  length-streams [] = refl
  length-streams (x ∷ xs) = ap suc (length-streams xs)

  -- The last of the reports has the key that all of them have.
  pub last_told :
      (key : Text) (x : Player) (xs : List Player)
      → All (λ (y : Player). key_of y ≡ key) (x ∷ xs)
      → (ms : List KeyGenFinishMsg) × (last : KeyGenFinishMsg) × (map told (x ∷ xs)
          ≡ ms ++ last ∷ [])
        × (last.public_key ≡ key)
  last_told key x [] (same, _) = ([], told x, refl, same)
  last_told key x (y ∷ xs) (_, all) =
      let (ms, last, parts, same) = last_told key y xs all in
      (told x ∷ ms, last, ap (λ l. told x ∷ l) parts, same)

  pub hold :
      (m : KeyGenPrepareMsg) (key : Text) (xs : List Player)
      → TakesWrites st
      → All (GoesWell m) xs
      → All (λ (x : Player). key_of x ≡ key) xs
      → All (Holds m key) xs
  hold m key [] takes well same = tt
  hold m key (x ∷ xs) takes (one, well) (own, same) =
      (subst (λ k. Holds m k x) own (plays m x takes one).0, hold m key xs takes well same)
