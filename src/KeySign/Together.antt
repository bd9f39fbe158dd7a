-- ===== src/KeySign/Together.antt =====
-- A whole signature that goes well: the coordinator's call of KeySign, its goroutines, and the parties'
-- calls of handleKeySign on the other ends of their streams.
use tss_server.Prelude.{
  ℕ, ◌+◌, ◌-◌, ◌<◌, ◌^◌, Text, String, some, List, [], ◌∷◌, length, map, Memᴰ, All, length-Permᴰ,
  ok, ◌≡◌, refl, sym, ap, ◌∙◌, subst, arith,
}
use mathlib.Core.List.{Permᴰ}
use tss_server.Prelude.Int.{pos}
use tss_server.Proto.{TssP2PMsg, KeyData, KeySignRequest, Time, KeySignPrepareMsg}
use tss_server.Storage.Contract.{LocalStorage}
use tss_server.P2p.{P2PStream}
use tss_server.P2p.StreamMap.{StreamMap}
use tss_server.P2p.StreamMap.Distinct.{HasDistinctRemotes, map_streams, length-map_streams}
use tss_server.Session.{TssLib}
use tss_server.KeySign.{ready}
use tss_server.KeySign.Ready.{Event, proceed, sign_party_ids}
use tss_server.KeySign.Finish.{Finished}
use tss_server.KeySign.Outcome.{response}
use tss_server.KeySign.Calls.{AllReported, waited, key_sign-after_wait}
use tss_server.KeySign.Run.{
  Environment, Run, prepare_msg, report_errors, report_streams, key_sign, after_wait, finish_run,
}
use tss_server.KeySign.Success.{values, IsOpen, length-map, waited-proceed, finish_run-signed}
use tss_server.KeySign.Party.{SignLib, signed}
use tss_server.KeySign.Player.{
  Player, CanSign, Signs, told, reports, outcomes, reports-ready, outcomes-finished,
}

report_streams-ready : (ps : List P2PStream) → report_streams (map ready ps) ≡ ps
unfolding report_streams
report_streams-ready [] = refl
report_streams-ready (p ∷ ps) = ap (λ l. p ∷ l) (report_streams-ready ps)

report_errors-ready : (ps : List P2PStream) → report_errors (map ready ps) ≡ []
unfolding report_errors
report_errors-ready [] = refl
report_errors-ready (p ∷ ps) = report_errors-ready ps

module _ (lib : TssLib) (signs : SignLib) (st : LocalStorage)
    (invalid_msg_type : TssP2PMsg → String) where
  abbrev pub Seat : Type 0
  Seat = Player lib signs st invalid_msg_type

  module _ (env : Environment) (session_id : Text) (named : env.uuid ≡ ok session_id)
      (request : KeySignRequest) (deadline : Time) (d : KeyData) (t : ℕ)
      (threshold : d.threshold ≡ pos t) (small : t < 2 ^ 31 - 1) where
    abbrev prepare : KeySignPrepareMsg
    prepare = prepare_msg session_id request d deadline

    -- The parties that are started are those of the map, they are told to sign with each other, and
    -- come to an end in the order of `xs`.
    abbrev pub AreStarted : StreamMap → List Seat → Type 0
    AreStarted m xs =
        Permᴰ (map (λ (x : Seat). x.stream) xs) (map_streams m)
        × All (Signs lib signs st invalid_msg_type prepare (sign_party_ids d.all_party_id m)) xs
        × (env.outcomes m ≡ outcomes lib signs st invalid_msg_type prepare xs)

    first_signs :
        (m : StreamMap) (xs : List Seat)
        → report_errors env.reports ≡ []
        → length m ≡ t + 1
        → AreStarted m xs
        → IsOpen env.finish_picks
        → 0 < values env.finish_picks
        → (x : Seat) × Memᴰ x xs
          × ((finish_run env session_id d m).answer
              ≡ Finished.signed
                  (response session_id (signed lib signs st invalid_msg_type x.signature)))
    first_signs m [] no_error size (same, sign, came) open_ enough =
        absurd (let none = length-Permᴰ same in let all = length-map_streams m in omega arith)
    first_signs m (x ∷ xs) no_error size (same, sign, came) open_ enough =
        let each_told : length (map (told lib signs st invalid_msg_type) (x ∷ xs)) ≡ t + 1 =
          length-map (told lib signs st invalid_msg_type) (x ∷ xs)
          ∙ sym (length-map (λ (y : Seat). y.stream) (x ∷ xs))
          ∙ length-Permᴰ same
          ∙ length-map_streams m
          ∙ size in
        (
          x,
          Memᴰ.head refl,
          finish_run-signed env session_id named d t threshold small no_error []
              (told lib signs st invalid_msg_type x) (map (told lib signs st invalid_msg_type) xs) m
              size
              (came
                ∙ outcomes-finished lib signs st invalid_msg_type prepare
                    (sign_party_ids d.all_party_id m) (x ∷ xs) sign)
              tt (unfold signed in refl) (each_told) open_ enough,
        )

    -- A signature that goes well with all n parties of the key ends well: KeySign keeps the
    -- streams of t + 1 parties, t being the threshold of the key, t < n, tells the parties of the
    -- key that have one of these to sign, and answers the signature of one that it told. All n
    -- parties become ready, none fails, each is on a stream of its own, has a record of the key
    -- with save data that parse, and its validator takes the request; those that are started are
    -- told so with the same list, which names them, and their tss-libs end with a signature. It
    -- holds for t < 2^31 - 1, in whatever order they become ready and come to an end, if the call
    -- has a session id, its context does not end, and its loops take enough of what comes.
    pub key_sign_together :
        (xs : List Seat) (finishers : StreamMap → List Seat)
        → All (CanSign lib signs st invalid_msg_type prepare) xs
        → HasDistinctRemotes (map (λ (x : Seat). x.stream) xs)
        → t < length d.all_party_id
        → length xs ≡ length d.all_party_id
        → env.reports ≡ reports lib signs st invalid_msg_type prepare xs
        → ((m : StreamMap) (left : List Event)
            → waited env d ≡ proceed m left
            → AreStarted m (finishers m))
        → IsOpen env.ready_picks
        → t < values env.ready_picks
        → IsOpen env.finish_picks
        → 0 < values env.finish_picks
        → (m : StreamMap) × (x : Seat) × (length m ≡ t + 1)
          × Memᴰ x (finishers m)
          × ((key_sign env (ok (some d))).start
              ≡ some (record { sign_party_id = sign_party_ids d.all_party_id m }))
          × ((key_sign env (ok (some d))).answer
              ≡ Finished.signed
                  (response session_id (signed lib signs st invalid_msg_type x.signature)))
    unfolding after_wait finish_run
    key_sign_together xs finishers can apart many complete come started ready_open ready_enough
          finish_open finish_enough =
        let streams = map (λ (x : Seat). x.stream) xs in
        let all_ready : env.reports ≡ map ready streams =
          come ∙ reports-ready lib signs st invalid_msg_type prepare xs can in
        let no_error : report_errors env.reports ≡ [] =
          ap report_errors all_ready ∙ report_errors-ready streams in
        let came : report_streams env.reports ≡ streams =
          ap report_streams all_ready ∙ report_streams-ready streams in
        let size = length-map (λ (x : Seat). x.stream) xs in
        let all : AllReported env d =
          ap length all_ready ∙ length-map ready streams ∙ size ∙ complete in
        let (m, left, goes_on, exact) =
          waited-proceed env session_id named d t threshold small no_error
            (subst HasDistinctRemotes (sym came) apart)
            (subst (λ l. t < length l) (sym came) (omega arith)) ready_open ready_enough in
        let (x, among, answers) =
          first_signs m (finishers m) no_error exact (started m left goes_on) finish_open
            finish_enough in
        let run =
          key_sign-after_wait env session_id named d all
          ∙ ap (after_wait env session_id d) goes_on in
        (
          m,
          x,
          exact,
          among,
          ap (λ (r : Run). r.start) run,
          ap (λ (r : Run). r.answer) run ∙ answers,
        )
