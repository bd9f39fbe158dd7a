-- ===== src/KeySign/Success.antt =====
-- Calls of KeySign that go well: they start the parties that they need, and answer a signature.
use tss_server.Prelude.{
  ℕ, suc, zero, ◌+◌, ◌-◌, ◌<◌, ◌^◌, Text, true, false, some, List, [], ◌∷◌, ◌++◌, length, map, take,
  drop, take-append-drop, All, ok, ◌≡◌, refl, sym, ap, ◌∙◌, subst, arith, length-append,
}
use native.Mathlib.Nat.{zero-add}
use mathlib.Core.List.{map-append, append-nil}
use tss_server.Prelude.Int.{pos}
use tss_server.Proto.{KeyData, KeySignFinishMsg}
use tss_server.P2p.{P2PStream}
use tss_server.P2p.StreamMap.{StreamMap, stored}
use tss_server.P2p.StreamMap.Distinct.{
  HasDistinctRemotes, HasDistinctRemotes-left, length-stored_new, nothing_stored,
}
use tss_server.KeySign.Ready
use tss_server.KeySign.Ready.{proceed, wait_for_ready, sign_party_ids}
use tss_server.KeySign.Finish
use tss_server.KeySign.Finish.{Outcome, Finished, wait_for_finish}
use tss_server.KeySign.Outcome.{response, wait_for_finish-signed}
use tss_server.KeySign.Quorum.{wait_for_ready-proceed, wait_for_ready-enough}
use tss_server.KeySign.Calls.{AllReported, waited, key_sign-after_wait, finish_run-all}
use tss_server.KeySign.Run.{
  Environment, Run, Pick, pick_done, pick_error, pick_value, report_errors, report_streams,
  offer_errors, finish_msgs, take_ready, take_finish, key_sign, after_wait, finish_run,
}

-- How often the `select` of a loop picks the channel of what is waited for.
abbrev pub values : List Pick → ℕ
values [] = 0
values (pick_done e ∷ picks) = values picks
values (pick_error ∷ picks) = values picks
values (pick_value ∷ picks) = suc (values picks)

-- The context does not end.
abbrev pub IsOpen : List Pick → Type 0
IsOpen [] = Unit {0}
IsOpen (pick_done e ∷ picks) = ⊥
IsOpen (pick_error ∷ picks) = IsOpen picks
IsOpen (pick_value ∷ picks) = IsOpen picks

take-nil {ℓ} : {A : Type ℓ} (n : ℕ) → take {A = A} n [] ≡ []
take-nil zero = refl
take-nil (suc n) = refl

pub take_ready-take :
    (picks : List Pick) (ps : List P2PStream)
    → IsOpen picks
    → take_ready picks [] ps ≡ map Ready.Event.stream (take (values picks) ps)
unfolding take_ready
take_ready-take [] ps open_ = refl
take_ready-take (pick_done e ∷ picks) ps open_ = elim open_ [ ]
take_ready-take (pick_error ∷ picks) ps open_ = take_ready-take picks ps open_
take_ready-take (pick_value ∷ picks) [] open_ =
    take_ready-take picks [] open_ ∙ ap (map Ready.Event.stream) (take-nil (values picks))
take_ready-take (pick_value ∷ picks) (p ∷ ps) open_ =
    ap (λ l. Ready.Event.stream p ∷ l) (take_ready-take picks ps open_)

take_finish-take :
    (picks : List Pick) (ms : List KeySignFinishMsg)
    → IsOpen picks
    → take_finish picks [] ms ≡ map Finish.Event.finish (take (values picks) ms)
unfolding take_finish
take_finish-take [] ms open_ = refl
take_finish-take (pick_done e ∷ picks) ms open_ = elim open_ [ ]
take_finish-take (pick_error ∷ picks) ms open_ = take_finish-take picks ms open_
take_finish-take (pick_value ∷ picks) [] open_ =
    take_finish-take picks [] open_ ∙ ap (map Finish.Event.finish) (take-nil (values picks))
take_finish-take (pick_value ∷ picks) (m ∷ ms) open_ =
    ap (λ l. Finish.Event.finish m ∷ l) (take_finish-take picks ms open_)

-- What reaches far enough into a list has its first part, and the element behind that.
take-past {ℓ} :
    {A : Type ℓ} (n : ℕ) (xs : List A) (y : A) (zs : List A)
    → length xs < n
    → (rest : List A) × (take n (xs ++ y ∷ zs) ≡ xs ++ y ∷ rest)
take-past zero xs y zs far = absurd (omega arith)
take-past (suc n) [] y zs far = (take n zs, refl)
take-past (suc n) (x ∷ xs) y zs far =
    let (rest, same) = take-past n xs y zs (omega arith) in (rest, ap (λ l. x ∷ l) same)

take-longer {ℓ} :
    {A : Type ℓ} (t n : ℕ) (xs : List A) → t < n → t < length xs → t < length (take n xs)
take-longer t zero xs past many = absurd (omega arith)
take-longer t (suc n) [] past many = absurd (omega arith)
take-longer zero (suc n) (x ∷ xs) past many = omega arith
take-longer (suc t) (suc n) (x ∷ xs) past many =
    let rest = take-longer t n xs (omega arith) (omega arith) in omega arith

-- Messages that the goroutines hand over leave no error behind.
offer_errors-finished :
    (capacity : ℕ) (ms : List KeySignFinishMsg)
    → offer_errors capacity [] (map Outcome.finished ms) ≡ []
unfolding offer_errors
offer_errors-finished capacity [] = refl
offer_errors-finished capacity (m ∷ ms) = offer_errors-finished capacity ms

finish_msgs-finished : (ms : List KeySignFinishMsg) → finish_msgs (map Outcome.finished ms) ≡ ms
unfolding finish_msgs
finish_msgs-finished [] = refl
finish_msgs-finished (m ∷ ms) = ap (λ l. m ∷ l) (finish_msgs-finished ms)

pub length-map {ℓ κ} :
    {A : Type ℓ} {B : Type κ} (f : A → B) (xs : List A) → length (map f xs) ≡ length xs
length-map f [] = refl
length-map f (x ∷ xs) = ap suc (length-map f xs)

module _ (env : Environment) (session_id : Text) (named : env.uuid ≡ ok session_id) (d : KeyData)
    (t : ℕ) (threshold : d.threshold ≡ pos t) (small : t < 2 ^ 31 - 1)
    (none_failed : report_errors env.reports ≡ []) where
  pub waited-proceed :
      HasDistinctRemotes (report_streams env.reports)
      → t < length (report_streams env.reports)
      → IsOpen env.ready_picks
      → t < values env.ready_picks
      → (m : StreamMap) × (left : List Ready.Event) × (waited env d ≡ proceed m left)
        × (length m ≡ t + 1)
  waited-proceed apart many open_ enough =
      let ps = take (values env.ready_picks) (report_streams env.reports) in
      let distinct : HasDistinctRemotes ps =
        HasDistinctRemotes-left ps (drop (values env.ready_picks) (report_streams env.reports)) (
          subst HasDistinctRemotes
            (sym (take-append-drop (values env.ready_picks) (report_streams env.reports))) apart) in
      let size : length (stored [] ps) ≡ length ps =
        length-stored_new [] ps distinct (nothing_stored ps) ∙ zero-add (length ps) in
      let all_taken : take_ready env.ready_picks (report_errors env.reports)
            (report_streams env.reports)
          ≡ map Ready.Event.stream ps ++ [] =
        ap (λ errs. take_ready env.ready_picks errs (report_streams env.reports)) none_failed
        ∙ take_ready-take env.ready_picks (report_streams env.reports) open_
        ∙ sym (append-nil (map Ready.Event.stream ps)) in
      let longer =
        take-longer t (values env.ready_picks) (report_streams env.reports) enough many in
      let (m, left, goes_on) =
        wait_for_ready-enough t small ps [] [] (omega arith)
          (subst (λ k. t < k) (sym size) longer) in
      let run : waited env d ≡ proceed m left = rw (threshold, all_taken) goes_on in
      let (taken, _, _, exact) =
        wait_for_ready-proceed t small (map Ready.Event.stream ps ++ []) left [] m (omega arith)
          goes_on in
      (m, left, run, exact)

  module _ (failures : List KeySignFinishMsg) (f : KeySignFinishMsg)
      (rest : List KeySignFinishMsg) where
    pub finish_run-signed :
        (m : StreamMap)
        → length m ≡ t + 1
        → env.outcomes m ≡ map Outcome.finished (failures ++ f ∷ rest)
        → All (λ (x : KeySignFinishMsg). x.is_success ≡ false) failures
        → f.is_success ≡ true
        → length (failures ++ f ∷ rest) ≡ t + 1
        → IsOpen env.finish_picks
        → length failures < values env.finish_picks
        → (finish_run env session_id d m).answer ≡ Finished.signed (response session_id f)
    finish_run-signed m size reported fs succeeded total open_ enough =
        let parts = length-append failures (f ∷ rest) in
        let ended : length (env.outcomes m) ≡ length m =
          ap length reported
          ∙ length-map Outcome.finished (failures ++ f ∷ rest)
          ∙ total
          ∙ sym size in
        let (late, reached) = take-past (values env.finish_picks) failures f rest enough in
        let taken : take_finish env.finish_picks [] (failures ++ f ∷ rest)
            ≡ map Finish.Event.finish failures
              ++ Finish.Event.finish f ∷ map Finish.Event.finish late =
          take_finish-take env.finish_picks (failures ++ f ∷ rest) open_
          ∙ ap (map Finish.Event.finish) reached
          ∙ map-append Finish.Event.finish failures (f ∷ late) in
        finish_run-all env session_id named d m ended
        ∙ rw
            (
              none_failed,
              reported,
              offer_errors-finished (length d.all_party_id) (failures ++ f ∷ rest),
              finish_msgs-finished (failures ++ f ∷ rest),
              taken,
            )
            (wait_for_finish-signed session_id (length m) (omega arith) failures f 0
              (map Finish.Event.finish late) fs succeeded (omega arith))

    -- A call of KeySign answers a signature though some of the parties that it starts fail to
    -- sign: when the goroutines of all parties of the key have ended, none of them with an error,
    -- more than t of them with a ready stream, t being the threshold of the key, no two of these
    -- to one party, and each of the t + 1 started parties has reported, one of them a success,
    -- then it keeps t + 1 streams, tells the parties of the key that have one of these to sign,
    -- and answers the signature of the first success. It holds for t < 2^31 - 1, if the call has
    -- a session id, the context does not end, and the loops take enough of what comes.
    pub key_sign-signs :
        AllReported env d
        → HasDistinctRemotes (report_streams env.reports)
        → t < length (report_streams env.reports)
        → IsOpen env.ready_picks
        → t < values env.ready_picks
        → ((m : StreamMap)
            → length m ≡ t + 1
            → env.outcomes m ≡ map Outcome.finished (failures ++ f ∷ rest))
        → All (λ (x : KeySignFinishMsg). x.is_success ≡ false) failures
        → f.is_success ≡ true
        → length (failures ++ f ∷ rest) ≡ t + 1
        → IsOpen env.finish_picks
        → length failures < values env.finish_picks
        → (m : StreamMap) × (length m ≡ t + 1)
          × ((key_sign env (ok (some d))).start
              ≡ some (record { sign_party_id = sign_party_ids d.all_party_id m }))
          × ((key_sign env (ok (some d))).answer ≡ Finished.signed (response session_id f))
    unfolding after_wait finish_run
    key_sign-signs all apart many ready_open ready_enough reported fs succeeded total finish_open
          finish_enough =
        let (m, left, ready, size) = waited-proceed apart many ready_open ready_enough in
        let run =
          key_sign-after_wait env session_id named d all ∙ ap (after_wait env session_id d) ready in
        (
          m,
          size,
          ap (λ (r : Run). r.start) run,
          ap (λ (r : Run). r.answer) run
              ∙ finish_run-signed m size (reported m size) fs succeeded total finish_open
                  finish_enough,
        )
