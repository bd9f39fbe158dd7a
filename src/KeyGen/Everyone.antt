-- ===== src/KeyGen/Everyone.antt =====
-- KeyGen and the calls of handleKeyGen that answer it: what the parties hold when a key is generated.
use tss_server.Prelude.{
  suc, length-append, ◌<◌, ◌^◌, Text, String, true, List, [], ◌∷◌, ◌++◌, Memᴰ, length, map, All,
  All-left, All-Memᴰ, Memᴰ-left, last_injective, Result, ok, ◌≡◌, refl, sym, ap, ◌∙◌, subst,
}
use tss_server.Proto.{
  TssP2PMsg, PartyId, Time, KeyGenPrepareMsg, KeyGenFinishMsg, KeyGenRequest, KeyGenResponse,
  key_gen_prepare, key_gen_finish,
}
use tss_server.Storage.Contract.{LocalStorage}
use tss_server.Session.{TssLib, Action, reply}
use tss_server.P2p.{P2PStream}
use tss_server.P2p.StreamMap.{HasId}
use tss_server.P2p.StreamMap.Labelled.{HaveDistinctIds, HaveDistinctIds-left, everyone_has, for_ids}
use tss_server.KeyGen.{Event, done, error, value, generated, prepare_msg, key_gen}
use tss_server.KeyGen.Unanimity.{AreFrom, key_gen-IsUnanimous}
use tss_server.KeyGen.Party.{KeyLib, Environment, Run, returned, handle_key_gen}
use tss_server.KeyGen.Party.Settled.{TakesWrites, IsReady}
use tss_server.KeyGen.Party.Report.{handle_key_gen-EndsReported}

module _ (lib : TssLib) (keys : KeyLib) (st : LocalStorage)
    (invalid_msg_type : TssP2PMsg → String) where
  open st use {State, IsSound}

  -- A party's call of handleKeyGen: its environment, the storage of the party before, what the call
  -- returns, and the finish message that it replies in the end.
  pub record Call : Type 0 where
    pub env : Environment lib keys st invalid_msg_type
    pub before : State
    pub answer : Result KeyGenFinishMsg
    pub replied : KeyGenFinishMsg

  abbrev pub id_of : Call → Text
  id_of c = c.env.local_id

  abbrev pub run_call : KeyGenPrepareMsg → Call → Run lib keys st invalid_msg_type
  run_call m c = handle_key_gen lib keys st invalid_msg_type c.env c.before (ok (key_gen_prepare m))

  -- The call got the prepare message, on a sound storage that others keep sound, and returned.
  abbrev pub IsCallOf : KeyGenPrepareMsg → Call → Type 0
  IsCallOf m c =
      IsSound c.before
      × ((s : State) → IsSound s → IsSound (c.env.meanwhile s))
      × ((s : State) → IsSound s → IsSound (c.env.later s))
      × ((run_call m c).answer ≡ returned c.answer)
      × (acts : List (Action lib)) × ((run_call m c).actions
          ≡ acts ++ reply (key_gen_finish c.replied) ∷ [])

  -- The finish messages that the last loop takes are those that the calls replied, in some order of
  -- these.
  abbrev pub Come : List (Event KeyGenFinishMsg) → List Call → Type 0
  Come [] cs = Unit {0}
  Come (value f ∷ es) [] = ⊥
  Come (value f ∷ es) (c ∷ cs) = (f ≡ c.replied) × Come es cs
  Come (done e ∷ es) cs = Come es cs
  Come (error e ∷ es) cs = Come es cs

  call-HoldsKey :
      (m : KeyGenPrepareMsg) (c : Call)
      → TakesWrites st
      → IsCallOf m c
      → c.replied.is_success ≡ true
      → IsReady st (run_call m c).storage m.key_id m.session_id c.replied.public_key
  call-HoldsKey m c takes (sound, meanwhile, later, answered, acts, at) success =
      let (f, before, told, (settled, ready)) =
        handle_key_gen-EndsReported lib keys st invalid_msg_type c.env c.before m c.answer takes
          meanwhile later sound answered in
      let same : f ≡ c.replied = cc (
        last_injective before acts (reply (key_gen_finish f)) (reply (key_gen_finish c.replied))
          (sym told ∙ at)) in
      subst
        (λ (x : KeyGenFinishMsg).
          IsReady st (run_call m c).storage m.key_id m.session_id x.public_key)
        same (ready (ap (λ (x : KeyGenFinishMsg). x.is_success) same ∙ success))

  -- The calls whose messages the loop took.
  came :
      (ms : List KeyGenFinishMsg) (left : List (Event KeyGenFinishMsg)) (cs : List Call)
      → Come (map value ms ++ left) cs
      → (qs : List Call) × (rest : List Call) × (cs ≡ qs ++ rest)
        × (map (λ (c : Call). c.replied) qs ≡ ms)
  came [] left cs h = ([], cs, refl, refl)
  came (f ∷ ms) left [] h = elim h [ ]
  came (f ∷ ms) left (c ∷ cs) (same, h) =
      let (qs, rest, parts, replies) = came ms left cs h in
      (c ∷ qs, rest, ap (λ l. c ∷ l) parts, cc (same, replies))

  length-replies : (qs : List Call) → length (map (λ (c : Call). c.replied) qs) ≡ length qs
  length-replies [] = refl
  length-replies (c ∷ qs) = ap suc (length-replies qs)

  -- What is true of what each call replied is true of its reply.
  of_reply :
      (qs : List Call) (ms : List KeyGenFinishMsg)
      → map (λ (c : Call). c.replied) qs ≡ ms
      → All (λ (f : KeyGenFinishMsg). f.is_success ≡ true) ms
      → All (λ (c : Call). c.replied.is_success ≡ true) qs
  of_reply qs ms same all =
      each qs (subst (All (λ (f : KeyGenFinishMsg). f.is_success ≡ true)) (sym same) all)
    where
      each :
          (qs : List Call)
          → All (λ (f : KeyGenFinishMsg). f.is_success ≡ true) (map (λ (c : Call). c.replied) qs)
          → All (λ (c : Call). c.replied.is_success ≡ true) qs
      each [] h = tt
      each (c ∷ qs) (one, h) = (one, each qs h)

  -- The call whose reply is the last of the messages.
  last_call :
      (qs : List Call) (ms : List KeyGenFinishMsg) (last : KeyGenFinishMsg)
      → map (λ (c : Call). c.replied) qs ≡ ms ++ last ∷ []
      → (c : Call) × Memᴰ c qs × (c.replied ≡ last)
  last_call [] [] last h = cc
  last_call [] (f ∷ ms) last h = cc
  last_call (c ∷ qs) [] last h = (c, Memᴰ.head refl, cc h)
  last_call (c ∷ qs) (f ∷ ms) last h =
      let (d, at, same) = last_call qs ms last (cc h) in (d, Memᴰ.tail at, same)

  -- As many calls as parties, by different ones of these, and all successful.
  everyone-HoldsKey :
      (m : KeyGenPrepareMsg) (ps : List PartyId) (qs : List Call) (k : Text)
      → TakesWrites st
      → All (IsCallOf m) qs
      → All (λ (c : Call). HasId c.env.local_id ps) qs
      → All (λ (c : Call). c.replied.is_success ≡ true) qs
      → HaveDistinctIds id_of qs
      → length qs ≡ length ps
      → HasId k ps
      → (c : Call) × Memᴰ c qs
        × (c.env.local_id ≡ k)
        × IsReady st (run_call m c).storage m.key_id m.session_id c.replied.public_key
  everyone-HoldsKey m ps qs k takes all ids success apart size at =
      let (c, among, same) = everyone_has id_of qs ps k apart ids size at in
      (
        c,
        among,
        same,
        call-HoldsKey m c takes (All-Memᴰ (IsCallOf m) all among)
            (All-Memᴰ (λ (c : Call). c.replied.is_success ≡ true) success among),
      )

  regrouped :
      (ms : List KeyGenFinishMsg) (last : KeyGenFinishMsg) (left : List (Event KeyGenFinishMsg))
      → map value ms ++ value last ∷ left ≡ map value (ms ++ last ∷ []) ++ left
  regrouped [] last left = refl
  regrouped (f ∷ ms) last left = ap (λ l. value f ∷ l) (regrouped ms last left)

  -- A key that KeyGen generates is a key of every party: each party of the request has a READY
  -- record of the session, with the public key that it replied, and one of them has the public key
  -- of the answer. It holds where the ready streams are to parties of the request, and the finish
  -- messages come from calls of handleKeyGen on the prepare message that KeyGen sends, each by
  -- another party of the request, whose storage is sound and takes every write; for n parties,
  -- 0 < n < 2^31.
  pub key_gen-HoldsKey :
      (session_id : Text) (request : KeyGenRequest) (deadline : Time)
      (readies : List (Event P2PStream)) (finishes : List (Event KeyGenFinishMsg))
      (calls : List Call) (r : KeyGenResponse)
      → 0 < length request.all_party_id
      → length request.all_party_id < 2 ^ 31
      → TakesWrites st
      → AreFrom request.all_party_id readies
      → All (IsCallOf (prepare_msg session_id request deadline)) calls
      → All (λ (c : Call). HasId c.env.local_id request.all_party_id) calls
      → HaveDistinctIds id_of calls
      → Come finishes calls
      → (key_gen (ok session_id) request readies finishes).answer ≡ generated r
      → All
          (λ (p : PartyId).
            (c : Call) × Memᴰ c calls
            × (c.env.local_id ≡ p.id)
            × IsReady st
                (run_call (prepare_msg session_id request deadline) c).storage
                request.key_id
                session_id
                c.replied.public_key)
          request.all_party_id
        × (c : Call) × Memᴰ c calls
        × IsReady st
            (run_call (prepare_msg session_id request deadline) c).storage
            request.key_id
            session_id
            r.public_key
  unfolding prepare_msg
  key_gen-HoldsKey session_id request deadline readies finishes calls r some_party few takes from
        all ids apart come h =
      let m = prepare_msg session_id request deadline in
      let (everyone, ms, last, left, taken, success, size, answer) =
        key_gen-IsUnanimous session_id request readies finishes r some_party few from h in
      let (qs, rest, parts, replies) =
        came (ms ++ last ∷ []) left calls
          (subst (λ es. Come es calls) (taken ∙ regrouped ms last left) come) in
      let full : length qs ≡ length request.all_party_id =
        sym (length-replies qs) ∙ ap length replies ∙ length-append ms (last ∷ []) ∙ size in
      let of_calls = All-left (IsCallOf m) qs rest (subst (All (IsCallOf m)) parts all) in
      let of_ids =
        All-left (λ (c : Call). HasId c.env.local_id request.all_party_id) qs rest
          (subst (All (λ (c : Call). HasId c.env.local_id request.all_party_id)) parts ids) in
      let of_success = of_reply qs (ms ++ last ∷ []) replies success in
      let distinct =
        HaveDistinctIds-left id_of qs rest (subst (HaveDistinctIds id_of) parts apart) in
      let among : (c : Call) → Memᴰ c qs → Memᴰ c calls =
        λ c at. subst (λ l. Memᴰ c l) (sym parts) (Memᴰ-left qs rest at) in
      let (d, last_at, is_last) = last_call qs ms last replies in
      (
        for_ids
            (λ k.
              (c : Call) × Memᴰ c calls
              × (c.env.local_id ≡ k)
              × IsReady st (run_call m c).storage m.key_id m.session_id c.replied.public_key)
            request.all_party_id
            (λ k at.
              let (c, c_at, same, holds) =
                everyone-HoldsKey m request.all_party_id qs k takes of_calls of_ids of_success
                  distinct full at in
              (c, among c c_at, same, holds)),
        d,
        among d last_at,
        subst (λ (key : Text). IsReady st (run_call m d).storage m.key_id m.session_id key)
            (ap (λ (x : KeyGenFinishMsg). x.public_key) is_last
              ∙ sym (ap (λ (x : KeyGenResponse). x.public_key) answer))
            (call-HoldsKey m d takes (All-Memᴰ (IsCallOf m) of_calls last_at)
              (All-Memᴰ (λ (c : Call). c.replied.is_success ≡ true) of_success last_at)),
      )
