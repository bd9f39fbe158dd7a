-- ===== src/KeySign/Calls.antt =====
-- Whole calls of KeySign: how many parties are told to sign, and what becomes of the error of a party
-- that was not needed.
use tss_server.Prelude.{
  ℕ, ◌+◌, ◌-◌, ◌^◌, ◌<◌, Text, String, some, some_injective, ok, List, [], ◌∷◌, ◌++◌, length, All,
  ltb, eqb, false, true, Bool-cases, inl, inr, ◌≡◌, refl, sym, ap, ◌∙◌, arith, none,
}
use tss_server.Prelude.Int.{pos}
use tss_server.Proto.{KeyData, KeySignStartMsg, PartyId}
use tss_server.P2p.{P2PStream}
use tss_server.P2p.StreamMap.{HasDistinctIds, HasId, StreamMap}
use tss_server.KeySign.Ready
use tss_server.KeySign.Ready.{Wait, returned, proceed, waiting, wait_for_ready, sign_party_ids}
use tss_server.KeySign.Finish.{Outcome, Finished, offer, wait_for_finish}
use tss_server.KeySign.Signers.{IsFromParty, signers_exact}
use tss_server.KeySign.Run.{
  Pick, pick_done, pick_error, pick_value, report_errors, report_streams, offer_errors, take_ready,
  take_finish, finish_msgs, Environment, Run, key_sign, after_wait, finish_run,
}

take_ready-IsFromParty :
    (parties : List PartyId) (picks : List Pick) (errs : List String) (ps : List P2PStream)
    → All (λ (p : P2PStream). HasId p.remote_party_id parties) ps
    → All (IsFromParty parties) (take_ready picks errs ps)
unfolding take_ready
take_ready-IsFromParty parties [] errs ps h = tt
take_ready-IsFromParty parties (pick_done e ∷ picks) errs ps h =
    (tt, take_ready-IsFromParty parties picks errs ps h)
take_ready-IsFromParty parties (pick_error ∷ picks) [] ps h =
    take_ready-IsFromParty parties picks [] ps h
take_ready-IsFromParty parties (pick_error ∷ picks) (e ∷ errs) ps h =
    (tt, take_ready-IsFromParty parties picks errs ps h)
take_ready-IsFromParty parties (pick_value ∷ picks) errs [] h =
    take_ready-IsFromParty parties picks errs [] h
take_ready-IsFromParty parties (pick_value ∷ picks) errs (p ∷ ps) h =
    (h.0, take_ready-IsFromParty parties picks errs ps h.1)

-- What the second goroutines offer comes behind what errChan holds.
offer_errors-head :
    (capacity : ℕ) (e : String) (errs : List String) (os : List Outcome)
    → (errs' : List String) × (offer_errors capacity (e ∷ errs) os ≡ e ∷ errs')
unfolding offer_errors offer
offer_errors-head capacity e errs [] = (errs, refl)
offer_errors-head capacity e errs (Outcome.silent ∷ os) = offer_errors-head capacity e errs os
offer_errors-head capacity e errs (Outcome.finished m ∷ os) = offer_errors-head capacity e errs os
offer_errors-head capacity e errs (Outcome.failed x ∷ os) =
    elim (Bool-cases (ltb (length (e ∷ errs)) capacity)) [
      | inl room ↦ rw room (offer_errors-head capacity e (errs ++ x ∷ []) os)
      | inr full ↦ rw full (offer_errors-head capacity e errs os)
    ]

-- What the first loop gets to see in a call.
abbrev pub waited : Environment → KeyData → Wait
waited env d =
    wait_for_ready d.threshold
      (take_ready env.ready_picks (report_errors env.reports) (report_streams env.reports)) []

-- The goroutines of all parties of the key have ended, so that wgNew.Wait returns.
abbrev pub AllReported : Environment → KeyData → Type 0
AllReported env d = length env.reports ≡ length d.all_party_id

pub eqb-same : (a b : ℕ) → a ≡ b → eqb a b ≡ true
eqb-same a b same = ground arith

module _ (env : Environment) (session_id : Text) (named : env.uuid ≡ ok session_id)
    (d : KeyData) where
  pub key_sign-after_wait :
      AllReported env d → key_sign env (ok (some d)) ≡ after_wait env session_id d (waited env d)
  unfolding key_sign
  key_sign-after_wait all = rw (named, key_sign, eqb-same _ _ all)

  -- As long as one of them has not, KeySign does not go on.
  pub key_sign-waits :
      eqb (length env.reports) (length d.all_party_id) ≡ false
      → key_sign env (ok (some d)) ≡ record { start = none; answer = Finished.waiting }
  unfolding key_sign
  key_sign-waits few = rw (named, key_sign, few)

  -- Behind wg.Wait.
  pub finish_run-all :
      (m : StreamMap)
      → length (env.outcomes m) ≡ length m
      → (finish_run env session_id d m).answer
        ≡ wait_for_finish session_id (length m) 0 (
            take_finish env.finish_picks
              (offer_errors (length d.all_party_id) (report_errors env.reports) (env.outcomes m))
              (finish_msgs (env.outcomes m)))
  unfolding finish_run
  finish_run-all m all = rw (eqb-same _ _ all)

  -- If a call of KeySign sends a start message, it names exactly t + 1 parties, t being the key's
  -- threshold: where t ≥ 0, the parties of the key have distinct ids, and every ready stream is one
  -- to a party of the key.
  pub start_names_quorum :
      (t : ℕ) (start : KeySignStartMsg)
      → d.threshold ≡ pos t
      → t < 2 ^ 31 - 1
      → HasDistinctIds d.all_party_id
      → All (λ (p : P2PStream). HasId p.remote_party_id d.all_party_id) (report_streams env.reports)
      → (key_sign env (ok (some d))).start ≡ some start
      → length start.sign_party_id ≡ t + 1
  unfolding after_wait
  start_names_quorum t start ht bound distinct own h =
      elim (Bool-cases (eqb (length env.reports) (length d.all_party_id))) [
        | inl all ↦
            from (waited env d) refl
              (sym (ap (λ (r : Run). r.start) (key_sign-after_wait (ground arith))) ∙ h)
        | inr few ↦ cc (sym (ap (λ (r : Run). r.start) (key_sign-waits few)) ∙ h)
      ]
    where
      from :
          (w : Wait)
          → waited env d ≡ w
          → (after_wait env session_id d w).start ≡ some start
          → length start.sign_party_id ≡ t + 1
      from (returned e) hw hs = cc
      from (waiting m) hw hs = cc
      from (proceed m left) hw hs =
          ap (λ (x : KeySignStartMsg). length x.sign_party_id) (sym (some_injective hs))
          ∙ signers_exact d.all_party_id t
              (take_ready env.ready_picks (report_errors env.reports) (report_streams env.reports))
              left m bound distinct
              (take_ready-IsFromParty d.all_party_id env.ready_picks (report_errors env.reports)
                (report_streams env.reports) own)
              (ap
                  (λ z.
                    wait_for_ready z
                      (take_ready env.ready_picks (report_errors env.reports)
                        (report_streams env.reports))
                      [])
                  (sym ht)
                ∙ hw)

  -- The error of a party that is not needed: when the goroutines of all parties have ended, one of
  -- them with an error, the others are enough, the goroutines of the started parties have ended, and
  -- the last loop's `select` takes that error first, the call of KeySign has told the others to sign
  -- and fails with the error, whatever signatures they made.
  pub unneeded_party_fails_call :
      (e : String) (errs : List String) (picks : List Pick) (m : StreamMap)
      (left : List Ready.Event)
      → AllReported env d
      → report_errors env.reports ≡ e ∷ errs
      → env.finish_picks ≡ pick_error ∷ picks
      → waited env d ≡ proceed m left
      → length (env.outcomes m) ≡ length m
      → ((key_sign env (ok (some d))).start
          ≡ some (record { sign_party_id = sign_party_ids d.all_party_id m }))
        × ((key_sign env (ok (some d))).answer ≡ Finished.returned e)
  unfolding after_wait finish_run take_finish wait_for_finish
  unneeded_party_fails_call e errs picks m left all he hp hw ended =
      let (errs', kept) = offer_errors-head (length d.all_party_id) e errs (env.outcomes m) in
      let run = key_sign-after_wait all ∙ ap (after_wait env session_id d) hw in
      (
        ap (λ (r : Run). r.start) run,
        ap (λ (r : Run). r.answer) run ∙ finish_run-all m ended ∙ rw (hp, he, kept),
      )
