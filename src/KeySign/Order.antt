-- ===== src/KeySign/Order.antt =====
-- Which parties KeySign tells to sign: those whose ready streams it took, in whatever order.
use tss_server.Prelude.{
  ℕ, ◌+◌, ◌-◌, ◌<◌, ◌^◌, Text, ◌==◌, Bool, true, false, if◌then◌else◌, some, List, [], ◌∷◌, ◌++◌,
  length, map, All, ok, ltb, ◌≡◌, refl, sym, ap, ◌∙◌, arith,
}
use native.Mathlib.Nat.{ℕ_set}
use mathlib.Core.List.{Permᴰ}
use mathlib.Core.Quot
use mathlib.Core.Quot.{Quot}
use tss_server.Prelude.Int.{pos}
use tss_server.Proto.{PartyId, KeyData}
use tss_server.P2p.{P2PStream}
use tss_server.P2p.StreamMap.{StreamMap, store, stored, contains, contains-store}
use tss_server.P2p.StreamMap.{length-store}
use tss_server.P2p.StreamMap.Distinct.{HasDistinctRemotes, nothing_stored, still_new}
use tss_server.KeySign.Ready.{Event, stream, proceed, wait_for_ready, sign_party_ids}
use tss_server.KeySign.Quorum.{past_threshold}
use tss_server.KeySign.Calls.{AllReported, waited, key_sign-after_wait}
use tss_server.KeySign.Run.{
  Environment, Run, report_errors, report_streams, take_ready, key_sign, after_wait, finish_run,
}

-- Two maps have streams to the same parties.
abbrev pub SameParties : StreamMap → StreamMap → Type 0
SameParties m n = (k : Text) → contains m k ≡ contains n k

-- The parties that are ready, without the order in which they were: what a map of streams stands
-- for.
abbrev pub ReadyParties : Type 0
ReadyParties = Quot SameParties

pub sign_party_ids-SameParties :
    (parties : List PartyId) (m n : StreamMap)
    → SameParties m n
    → sign_party_ids parties m ≡ sign_party_ids parties n
unfolding sign_party_ids
sign_party_ids-SameParties [] m n same = refl
sign_party_ids-SameParties (p ∷ ps) m n same =
    let rest = sign_party_ids-SameParties ps m n same in rw (same p.id, rest)

pub parties_set : IsSet (List PartyId)
parties_set = hlevel ℕ_set

-- The parties that sign, of the parties that are ready.
abbrev pub signers : List PartyId → ReadyParties → List PartyId
signers parties =
    Quot.lift parties_set (sign_party_ids parties) (sign_party_ids-SameParties parties)

-- The parties of the streams, and whether one of them is a given one.
abbrev pub remotes : List P2PStream → List Text
remotes = map (λ (p : P2PStream). p.remote_party_id)

abbrev is_among : List Text → Text → Bool
is_among [] k = false
is_among (j ∷ js) k = if j == k then true else is_among js k

contains-stored :
    (m : StreamMap) (ps : List P2PStream) (k : Text)
    → contains (stored m ps) k ≡ (if is_among (remotes ps) k then true else contains m k)
contains-stored m [] k = refl
contains-stored m (p ∷ ps) k =
    ground (arith, contains-stored (store m p) ps k, contains-store m p k)

is_among-Permᴰ : (js ks : List Text) → Permᴰ js ks → (k : Text) → is_among js k ≡ is_among ks k
is_among-Permᴰ js ks Permᴰ.nil k = refl
is_among-Permᴰ js ks (Permᴰ.cons {l₁ = js'} {l₂ = ks'} same rest) k =
    let later = is_among-Permᴰ js' ks' rest k in rw (same, later)
is_among-Permᴰ js ks (Permᴰ.swap first second) k = rw (first, second) (ground arith)
is_among-Permᴰ js ks (Permᴰ.trans {l₂ = ls} first second) k =
    is_among-Permᴰ js ls first k ∙ is_among-Permᴰ ls ks second k

stored-SameParties :
    (ps qs : List P2PStream)
    → Permᴰ (remotes ps) (remotes qs)
    → SameParties (stored [] ps) (stored [] qs)
stored-SameParties ps qs order k =
    contains-stored [] ps k
    ∙ ap (λ b. if b then true else contains [] k) (is_among-Permᴰ (remotes ps) (remotes qs) order k)
    ∙ sym (contains-stored [] qs k)

module _ (t : ℕ) (bound : t < 2 ^ 31 - 1) where
  -- The streams of t + 1 different parties in a row are what the loop takes.
  wait_for_ready-exactly :
      (m : StreamMap) (p : P2PStream) (ps : List P2PStream) (left : List Event)
      → HasDistinctRemotes (p ∷ ps)
      → All (λ (q : P2PStream). contains m q.remote_party_id ≡ false) (p ∷ ps)
      → length m + length ps ≡ t
      → wait_for_ready (pos t) (map stream (p ∷ ps) ++ left) m ≡ proceed (stored m (p ∷ ps)) left
  unfolding wait_for_ready
  wait_for_ready-exactly m p [] left apart (new, _) full =
      let grown = length-store m p in
      let size : length (store m p) ≡ t + 1 = ground arith in
      let reached : ltb t (length (store m p)) ≡ true = ground arith in
      rw (past_threshold t (length (store m p)) (omega arith), reached)
  wait_for_ready-exactly m p (q ∷ ps) left (others, apart) (new, rest) full =
      let grown = length-store m p in
      let size : length (store m p) ≡ length m + 1 = ground arith in
      let below : ltb t (length (store m p)) ≡ false = ground arith in
      rw (past_threshold t (length (store m p)) (omega arith), below)
        (wait_for_ready-exactly (store m p) q ps left apart (still_new m p (q ∷ ps) others rest)
          (omega arith))

  -- What the first loop of a call comes to take: the ready streams of t + 1 different parties.
  abbrev pub Takes : Environment → List P2PStream → Type 0
  Takes env ps =
      (left : List Event) × (take_ready env.ready_picks (report_errors env.reports)
          (report_streams env.reports)
        ≡ map stream ps ++ left)
      × HasDistinctRemotes ps
      × (length ps ≡ t + 1)

  module _ (d : KeyData) (threshold : d.threshold ≡ pos t) where
    start-signers :
        (env : Environment) (session_id : Text) (ps : List P2PStream)
        → env.uuid ≡ ok session_id
        → AllReported env d
        → Takes env ps
        → (key_sign env (ok (some d))).start
          ≡ some (record { sign_party_id = signers d.all_party_id (Quot.mk (stored [] ps)) })
    unfolding after_wait finish_run
    start-signers env session_id [] named all (left, takes, apart, size) = absurd (omega arith)
    start-signers env session_id (p ∷ ps) named all (left, takes, apart, size) =
        let goes_on : waited env d ≡ proceed (stored [] (p ∷ ps)) left =
          rw (threshold, takes)
            (wait_for_ready-exactly [] p ps left apart (nothing_stored (p ∷ ps)) (omega arith)) in
        ap (λ (r : Run). r.start)
          (key_sign-after_wait env session_id named d all
            ∙ ap (after_wait env session_id d) goes_on)

    -- Which parties KeySign tells to sign depends only on which t + 1 parties are ready: two
    -- calls on a key with the threshold t < 2^31 - 1, in which the first loop comes to take the
    -- ready streams of the same t + 1 different parties, each call in its order, send the same
    -- start message, whatever else there is to take, and whatever else differs in the two calls,
    -- which both have a session id, and in which the goroutines of all parties have ended.
    pub start_any_order :
        (env env' : Environment) (session_id session_id' : Text) (ps qs : List P2PStream)
        → env.uuid ≡ ok session_id
        → env'.uuid ≡ ok session_id'
        → AllReported env d
        → AllReported env' d
        → Takes env ps
        → Takes env' qs
        → Permᴰ (remotes ps) (remotes qs)
        → (r : ReadyParties) × ((key_sign env (ok (some d))).start
            ≡ some (record { sign_party_id = signers d.all_party_id r }))
          × ((key_sign env' (ok (some d))).start
              ≡ some (record { sign_party_id = signers d.all_party_id r }))
    start_any_order env env' session_id session_id' ps qs named named' all all' takes takes' order =
        let same : ◌≡◌ {A = ReadyParties} (Quot.mk (stored [] ps)) (Quot.mk (stored [] qs)) =
          Quot.sound (stored-SameParties ps qs order) in
        (
          Quot.mk (stored [] ps),
          start-signers env session_id ps named all takes,
          start-signers env' session_id' qs named' all' takes'
              ∙ ap (λ r. some (record { sign_party_id = signers d.all_party_id r })) (sym same),
        )
