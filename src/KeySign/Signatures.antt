-- ===== src/KeySign/Signatures.antt =====
-- KeySign and the calls of handleKeySign that answer it: what a signature of KeySign is.
use tss_server.Prelude.{
  ℕ, ◌-◌, ◌<◌, ◌^◌, Text, String, true, eqb, Bool-cases, inl, inr, some, List, [], ◌∷◌, ◌++◌, Memᴰ,
  All, All-Memᴰ, last_injective, length, Result, ok, err, ok_injective, ◌≡◌, refl, sym, ap, ◌∙◌,
  subst, arith,
}
use tss_server.Prelude.Int.{pos}
use tss_server.Proto.{
  TssP2PMsg, KeyData, KeySignPrepareMsg, KeySignFinishMsg, KeySignRequest, KeySignResponse, Time,
  key_sign_prepare, key_sign_finish,
}
use tss_server.Storage.Contract.{LocalStorage}
use tss_server.Manager.{get_latest_ready_key_data_by_key_id_from_storage}
use tss_server.Manager.Keys.{IsLatestUnder, get_latest_ready_lem}
use tss_server.Session.{TssLib, Action, reply}
use tss_server.P2p.StreamMap.{StreamMap}
use tss_server.KeySign.Ready.{Wait, returned, proceed, waiting}
use tss_server.KeySign.Finish
use tss_server.KeySign.Finish.{Finished, wait_for_finish}
use tss_server.KeySign.Outcome.{response, signed-Memᴰ}
use tss_server.KeySign.Quorum.{wait_for_ready-proceed}
use tss_server.KeySign.Calls.{waited, key_sign-after_wait, key_sign-waits, finish_run-all}
use tss_server.KeySign.Run
use tss_server.KeySign.Run.{
  Pick, pick_done, pick_error, pick_value, take_finish, finish_msgs, prepare_msg, key_sign,
  after_wait, finish_run,
}
use tss_server.KeySign.Party
use tss_server.KeySign.Party.{SignLib, Answer, conclude, handle_key_sign, failure}
use tss_server.KeySign.Party.Signed.{IsSignedFor, handle_key_sign-IsSignedFor}

-- A finish message that the last loop takes is one that a goroutine handed over.
take_finish-Memᴰ :
    (picks : List Pick) (errs : List String) (ms : List KeySignFinishMsg) (f : KeySignFinishMsg)
    → Memᴰ (Finish.Event.finish f) (take_finish picks errs ms)
    → Memᴰ f ms
unfolding take_finish
take_finish-Memᴰ [] errs ms f at = elim at [ ]
take_finish-Memᴰ (pick_done e ∷ picks) errs ms f (Memᴰ.head same) = cc
take_finish-Memᴰ (pick_done e ∷ picks) errs ms f (Memᴰ.tail at) =
    take_finish-Memᴰ picks errs ms f at
take_finish-Memᴰ (pick_error ∷ picks) [] ms f at = take_finish-Memᴰ picks [] ms f at
take_finish-Memᴰ (pick_error ∷ picks) (e ∷ errs) ms f (Memᴰ.head same) = cc
take_finish-Memᴰ (pick_error ∷ picks) (e ∷ errs) ms f (Memᴰ.tail at) =
    take_finish-Memᴰ picks errs ms f at
take_finish-Memᴰ (pick_value ∷ picks) errs [] f at = take_finish-Memᴰ picks errs [] f at
take_finish-Memᴰ (pick_value ∷ picks) errs (m ∷ ms) f (Memᴰ.head same) = Memᴰ.head (cc same)
take_finish-Memᴰ (pick_value ∷ picks) errs (m ∷ ms) f (Memᴰ.tail at) =
    Memᴰ.tail (take_finish-Memᴰ picks errs ms f at)

module _ (env : Run.Environment) (session_id : Text) (named : env.uuid ≡ ok session_id)
    (d : KeyData) (t : ℕ) (threshold : d.threshold ≡ pos t) (small : t < 2 ^ 31 - 1) where
  -- The signature of a call is a finish message that a goroutine of one of its streams handed over.
  key_sign-handed_over :
      (r : KeySignResponse)
      → (key_sign env (ok (some d))).answer ≡ Finished.signed r
      → (m : StreamMap) × (f : KeySignFinishMsg) × Memᴰ f (finish_msgs (env.outcomes m))
        × (f.is_success ≡ true)
        × (r ≡ response session_id f)
  unfolding after_wait finish_run
  key_sign-handed_over r h = elim (Bool-cases (eqb (length env.reports) (length d.all_party_id))) [
    | inl all ↦ from (waited env d) refl (
        sym (
          ap (λ (x : Run.Run). x.answer)
            (key_sign-after_wait env session_id named d (ground arith)))
        ∙ h)
    | inr few ↦
        cc (sym (ap (λ (x : Run.Run). x.answer) (key_sign-waits env session_id named d few)) ∙ h)
  ]
    where
      from :
          (w : Wait)
          → waited env d ≡ w
          → (after_wait env session_id d w).answer ≡ Finished.signed r
          → (m : StreamMap) × (f : KeySignFinishMsg) × Memᴰ f (finish_msgs (env.outcomes m))
            × (f.is_success ≡ true)
            × (r ≡ response session_id f)
      from (returned e) hw hs = cc
      from (waiting m) hw hs = cc
      from (proceed m left) hw hs =
          let (ps, taken, stored, size) =
            wait_for_ready-proceed t small _ left [] m (omega arith) (rw threshold at hw) in
          elim (Bool-cases (eqb (length (env.outcomes m)) (length m))) [
            | inl all ↦
                let (f, at, success, same) =
                  signed-Memᴰ session_id (length m) (omega arith) 0 _ r
                    (sym (finish_run-all env session_id named d m (ground arith)) ∙ hs) in
                (
                  m,
                  f,
                  take_finish-Memᴰ env.finish_picks _ (finish_msgs (env.outcomes m)) f at,
                  success,
                  same,
                )
            | inr few ↦ cc (rw few at hs)
          ]

module _ (lib : TssLib) (signs : SignLib) (st : LocalStorage)
    (invalid_msg_type : TssP2PMsg → String) where
  open st use {State, IsSound}

  -- A party's call of handleKeySign: its environment and its storage, what it returns, and the
  -- finish message that it replies in the end.
  pub record Call : Type 0 where
    pub env : Party.Environment lib signs st invalid_msg_type
    pub storage : State
    pub answer : Result KeySignFinishMsg
    pub replied : KeySignFinishMsg

  abbrev pub run_call : KeySignPrepareMsg → Call → Party.Run lib signs st invalid_msg_type
  run_call m c =
      handle_key_sign lib signs st invalid_msg_type c.env c.storage (ok (key_sign_prepare m))

  -- The call got the prepare message, and returned.
  abbrev pub IsCallOf : KeySignPrepareMsg → Call → Type 0
  IsCallOf m c =
      ((run_call m c).answer ≡ Answer.returned c.answer)
      × (acts : List (Action lib)) × ((run_call m c).actions
          ≡ acts ++ reply (key_sign_finish c.replied) ∷ [])

  -- What handleKeySign replies as a success is what it returns.
  conclude-replied :
      (acts before : List (Action lib)) (a : Answer) (res : Result KeySignFinishMsg)
      (f : KeySignFinishMsg)
      → (conclude lib signs st invalid_msg_type acts a).answer ≡ Answer.returned res
      → (conclude lib signs st invalid_msg_type acts a).actions
        ≡ before ++ reply (key_sign_finish f) ∷ []
      → f.is_success ≡ true
      → res ≡ ok f
  unfolding conclude failure
  conclude-replied acts before Answer.waiting res f h told success = cc
  conclude-replied acts before (Answer.returned (ok g)) res f h told success =
      let same =
        last_injective acts before (reply (key_sign_finish g)) (reply (key_sign_finish f)) told in
      cc (h, same)
  conclude-replied acts before (Answer.returned (err e)) res f h told success =
      let same : failure e ≡ f = cc (
        last_injective acts before (reply (key_sign_finish (failure e))) (reply (key_sign_finish f))
          told) in
      cc (ap (λ (x : KeySignFinishMsg). x.is_success) same ∙ success)

  call-IsSignedFor :
      (m : KeySignPrepareMsg) (c : Call)
      → IsCallOf m c
      → c.replied.is_success ≡ true
      → IsSignedFor lib signs st invalid_msg_type c.env c.storage m c.replied
  unfolding handle_key_sign
  call-IsSignedFor m c (answered, acts, told) success =
      let same = conclude-replied _ acts _ c.answer c.replied answered told success in
      (handle_key_sign-IsSignedFor lib signs st invalid_msg_type c.env c.storage m c.replied
        (answered ∙ ap Answer.returned same) success).0

  -- A signature of KeySign is one of the message of its request, under a key that its request
  -- selects: a party's call of handleKeySign replied it, to the prepare message that names the
  -- coordinator's latest READY record under the key id, and the local party of tss-lib made it of
  -- that message with the record that the party stores under the same ids. It holds where the
  -- coordinator's storage is sound, its record has a threshold t, 0 ≤ t < 2^31 - 1, and the finish
  -- messages come from calls of handleKeySign on the prepare message.
  pub key_sign-IsSignedFor :
      (env : Run.Environment) (s : State) (session_id : Text) (request : KeySignRequest)
      (d : KeyData) (t : ℕ) (deadline : Time) (r : KeySignResponse)
      → env.uuid ≡ ok session_id
      → IsSound s
      → get_latest_ready_key_data_by_key_id_from_storage st s request.key_id ≡ ok (some d)
      → d.threshold ≡ pos t
      → t < 2 ^ 31 - 1
      → ((m : StreamMap)
          → All
              (λ (f : KeySignFinishMsg).
                (c : Call) × IsCallOf (prepare_msg session_id request d deadline) c
                × (c.replied ≡ f))
              (finish_msgs (env.outcomes m)))
      → (key_sign env (get_latest_ready_key_data_by_key_id_from_storage st s request.key_id)).answer
        ≡ Finished.signed r
      → IsLatestUnder st s request.key_id (some d)
        × (c : Call) × IsCallOf (prepare_msg session_id request d deadline) c
        × IsSignedFor lib signs st invalid_msg_type c.env c.storage
            (record {
              sign_id = request.sign_id;
              session_id = session_id;
              key_id = request.key_id;
              key_session_id = d.key_session_id;
              sign_msg = request.sign_msg;
              deadline = deadline;
            })
            c.replied
        × (r ≡ response session_id c.replied)
  unfolding prepare_msg
  key_sign-IsSignedFor env s session_id request d t deadline r named sound found threshold small
        handed h =
      let (o, read, latest) = get_latest_ready_lem st s request.key_id sound in
      let same : o ≡ some d = ok_injective (sym read ∙ found) in
      let (m, f, at, success, answer) =
        key_sign-handed_over env session_id named d t threshold small r (rw found at h) in
      let (c, called, replied) =
        All-Memᴰ
          (λ (f : KeySignFinishMsg).
            (c : Call) × IsCallOf (prepare_msg session_id request d deadline) c × (c.replied ≡ f))
          (handed m) at in
      (
        subst (IsLatestUnder st s request.key_id) same latest,
        c,
        called,
        call-IsSignedFor (prepare_msg session_id request d deadline) c called
            (ap (λ (x : KeySignFinishMsg). x.is_success) replied ∙ success),
        answer ∙ ap (response session_id) (sym replied),
      )
