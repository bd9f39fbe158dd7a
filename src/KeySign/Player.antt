-- ===== src/KeySign/Player.antt =====
-- The parties of a signature that goes well, on the other ends of the coordinator's streams.
use tss_server.Prelude.{
  String, false, none, some, Option, List, [], ◌∷◌, map, All, Result, ok, err, ◌≡◌, refl, ap, ◌∙◌,
}
use tss_server.Proto.{
  TssP2PMsg, KeyData, PartyId, KeySignPrepareMsg, KeySignFinishMsg, key_sign_prepare,
  key_sign_start, key_sign_ready, key_sign_finish, key_sign_cancel,
}
use tss_server.Proto.Getters.{get_key_sign_prepare_msg}
use tss_server.Storage.Contract.{LocalStorage}
use tss_server.Manager.{get_key_data_by_key_id_and_key_session_id_from_storage}
use tss_server.P2p.{P2PStream, Exchange}
use tss_server.Session.{TssLib, Action, Ending, event_loop, find_party, sorted_parties, reply}
use tss_server.Session.Replies.{replies, replies_around, first_of, second_of, event_loop-no_replies}
use tss_server.KeySign.{Report, Context, ready, prepare_party, prepare_opened, prepare_reply}
use tss_server.KeySign.Finish.{Outcome, start_party, start_reply}
use tss_server.KeySign.Party.{
  SignLib, Environment, Run, Answer, waiting, returned, signed, end_session, run_session, on_start,
  after_ready, after_json, validate, after_validate, after_read, handle_key_sign0, conclude,
  handle_key_sign,
}
use tss_server.KeySign.Party.Success.{job_of, handle_key_sign-success}

-- The context of the call does not end.
abbrev pub open_context : Context
open_context = record { done_at_start = false; done_at_report = false }

module _ (lib : TssLib) (signs : SignLib) (st : LocalStorage)
    (invalid_msg_type : TssP2PMsg → String) where
  open st use {State}

  -- A party, with its end of the stream, its storage with its record of the key, and what its
  -- tss-lib makes.
  pub record Player : Type 0 where
    pub stream : P2PStream
    pub env : Environment lib signs st invalid_msg_type
    pub before : State
    pub key_data : KeyData
    pub save_data : signs.SaveData
    pub local_party : lib.PartyId
    pub signature : signs.SignatureData

  abbrev pub told : Player → KeySignFinishMsg
  told x = signed lib signs st invalid_msg_type x.signature

  abbrev pub play : KeySignPrepareMsg → Player → Run lib signs st invalid_msg_type
  play m x = handle_key_sign lib signs st invalid_msg_type x.env x.before (ok (key_sign_prepare m))

  -- The party has the key of the prepare message, and its validator takes the request.
  abbrev pub CanSign : KeySignPrepareMsg → Player → Type 0
  CanSign m x =
      (st.get_key_data_by_key_id_and_key_session_id x.before m.key_id m.key_session_id
        ≡ ok (some x.key_data))
      × (validate lib signs st invalid_msg_type x.env m ≡ ok tt)
      × (signs.unmarshal x.key_data.save_data_json ≡ ok x.save_data)
      × (x.env.ready_error ≡ none)

  -- The party is told to sign with these parties, and its tss-lib ends with a signature.
  abbrev pub Signs : KeySignPrepareMsg → List PartyId → Player → Type 0
  Signs m all x =
      CanSign m x
      × (x.env.start ≡ ok (key_sign_start (record { sign_party_id = all })))
      × (find_party lib (sorted_parties lib all) x.env.local_id ≡ some x.local_party)
      × ((event_loop lib (record { local_id = x.env.local_id; all = all; close_ends = false })
            (x.env.events
              (job_of lib signs st invalid_msg_type m x.key_data x.save_data all x.local_party))).1
          ≡ Ending.ended x.signature)

  -- The coordinator's end of a stream on which every call goes well.
  abbrev pub exchange : KeySignPrepareMsg → Player → Exchange
  exchange m x = record {
    opened = ok x.stream;
    prepare_refused = none;
    prepare_reply = first_of (replies lib (play m x).actions);
    start_refused = none;
    start_reply = second_of (replies lib (play m x).actions);
  }

  abbrev BeginsReady : Run lib signs st invalid_msg_type → Type 0
  BeginsReady r = (rest : List (Action lib)) × (r.actions ≡ reply key_sign_ready ∷ rest)

  end_session-BeginsReady :
      (acts : List (Action lib)) (e : Ending lib signs.SignatureData)
      → BeginsReady (end_session lib signs st invalid_msg_type (reply key_sign_ready ∷ acts) e)
  unfolding end_session
  end_session-BeginsReady acts Ending.waiting = (acts, refl)
  end_session-BeginsReady acts (Ending.returned e) = (acts, refl)
  end_session-BeginsReady acts (Ending.peer_failed e) = (acts, refl)
  end_session-BeginsReady acts (Ending.ended s) = (acts, refl)

  run_session-BeginsReady :
      (env : Environment lib signs st invalid_msg_type) (m : KeySignPrepareMsg) (d : KeyData)
      (save_data : signs.SaveData) (all : List PartyId) (o : Option lib.PartyId)
      → BeginsReady (run_session lib signs st invalid_msg_type env m d save_data all o)
  unfolding run_session
  run_session-BeginsReady env m d save_data all none = ([], refl)
  run_session-BeginsReady env m d save_data all (some p) = end_session-BeginsReady _ _

  on_start-BeginsReady :
      (env : Environment lib signs st invalid_msg_type) (m : KeySignPrepareMsg) (d : KeyData)
      (save_data : signs.SaveData) (r : Result TssP2PMsg)
      → BeginsReady (on_start lib signs st invalid_msg_type env m d save_data r)
  unfolding on_start
  on_start-BeginsReady env m d save_data (err e) = ([], refl)
  on_start-BeginsReady env m d save_data (ok (key_sign_start s)) =
      run_session-BeginsReady env m d save_data s.sign_party_id
        (find_party lib (sorted_parties lib s.sign_party_id) env.local_id)
  on_start-BeginsReady env m d save_data (ok key_sign_cancel) = ([], refl)
  on_start-BeginsReady env m d save_data (ok p) = ([], refl)

  conclude-BeginsReady :
      (acts : List (Action lib)) (a : Answer)
      → BeginsReady (conclude lib signs st invalid_msg_type (reply key_sign_ready ∷ acts) a)
  unfolding conclude
  conclude-BeginsReady acts waiting = (acts, refl)
  conclude-BeginsReady acts (returned (ok f)) = (_, refl)
  conclude-BeginsReady acts (returned (err e)) = (_, refl)

  -- A party that can sign says first that it is ready, whatever comes then.
  ready_first : (m : KeySignPrepareMsg) (x : Player) → CanSign m x → BeginsReady (play m x)
  unfolding handle_key_sign get_key_sign_prepare_msg handle_key_sign0 after_read after_validate
      after_json after_ready get_key_data_by_key_id_and_key_session_id_from_storage
  ready_first m x (at, valid, parsed, no_error) =
      let (rest, begins) = on_start-BeginsReady x.env m x.key_data x.save_data x.env.start in
      rw (at, valid, parsed, no_error, begins) (conclude-BeginsReady rest _)

  prepared :
      (m : KeySignPrepareMsg) (x : Player)
      → CanSign m x
      → prepare_party invalid_msg_type open_context (exchange m x) ≡ ready x.stream
  unfolding prepare_party prepare_opened prepare_reply
  prepared m x can = let (rest, begins) = ready_first m x can in rw begins

  reported :
      (m : KeySignPrepareMsg) (all : List PartyId) (x : Player)
      → Signs m all x
      → start_party invalid_msg_type false (exchange m x) ≡ Outcome.finished (told x)
  unfolding start_party start_reply
  reported m all x ((at, valid, parsed, no_error), starts, found, loops) =
      let (_, acts) =
        handle_key_sign-success lib signs st invalid_msg_type x.env x.before m x.key_data
          x.save_data all x.local_party x.signature at valid parsed no_error starts found loops in
      let said =
        ap (replies lib) acts
        ∙ replies_around lib key_sign_ready (key_sign_finish (told x))
            (event_loop lib (record { local_id = x.env.local_id; all = all; close_ends = false })
              (x.env.events (
                job_of lib signs st invalid_msg_type m x.key_data x.save_data all x.local_party))).0
            (event_loop-no_replies lib signs.SignatureData
              (record { local_id = x.env.local_id; all = all; close_ends = false })
              (x.env.events (
                job_of lib signs st invalid_msg_type m x.key_data x.save_data all
                  x.local_party))) in
      rw said

  -- What the first goroutines hand over, the parties being in the order in which they come to be
  -- ready, and the second ones, in the order in which the parties come to an end.
  abbrev pub reports : KeySignPrepareMsg → List Player → List Report
  reports m xs = map (λ x. prepare_party invalid_msg_type open_context (exchange m x)) xs

  abbrev pub outcomes : KeySignPrepareMsg → List Player → List Outcome
  outcomes m xs = map (λ x. start_party invalid_msg_type false (exchange m x)) xs

  pub reports-ready :
      (m : KeySignPrepareMsg) (xs : List Player)
      → All (CanSign m) xs
      → reports m xs ≡ map ready (map (λ (x : Player). x.stream) xs)
  reports-ready m [] can = refl
  reports-ready m (x ∷ xs) (one, can) =
      let now = prepared m x one in let rest = reports-ready m xs can in rw (now, rest)

  pub outcomes-finished :
      (m : KeySignPrepareMsg) (all : List PartyId) (xs : List Player)
      → All (Signs m all) xs
      → outcomes m xs ≡ map Outcome.finished (map told xs)
  outcomes-finished m all [] sign = refl
  outcomes-finished m all (x ∷ xs) (one, sign) =
      let now = reported m all x one in let rest = outcomes-finished m all xs sign in rw (now, rest)
