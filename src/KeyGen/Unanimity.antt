-- ===== src/KeyGen/Unanimity.antt =====
-- What a call of KeyGen shows about the parties of its request.
use tss_server.Prelude.{
  ◌+◌, ◌<◌, ◌^◌, Text, true, List, [], ◌∷◌, ◌++◌, length, map, All, ok, ◌≡◌, ◌≢◌, refl, sym, subst,
  arith,
}
use tss_server.Proto.{KeyGenFinishMsg, KeyGenRequest, KeyGenResponse, PartyId}
use tss_server.P2p.{P2PStream}
use tss_server.P2p.StreamMap.{
  StreamMap, contains, HasDistinctKeys, HasId, KeysAreIds, stored-HasDistinctKeys,
  stored-KeysAreIds,
}
use tss_server.P2p.StreamMap.Counting.{full_map, IsTwice, length-lt-parties}
use tss_server.KeyGen.{
  Event, value, Wait, returned, proceed, waiting, wait_for_ready, generated, after_wait, key_gen,
}
use tss_server.KeyGen.Loops.{wait_for_ready-proceed, wait_for_finish-generated}

-- The streams that the first loop takes are to parties of the list.
abbrev pub AreFrom : List PartyId → List (Event P2PStream) → Type 0
AreFrom parties [] = Unit {0}
AreFrom parties (value p ∷ es) = HasId p.remote_party_id parties × AreFrom parties es
AreFrom parties (_ ∷ es) = AreFrom parties es

AreFrom-values :
    (parties : List PartyId) (ps : List P2PStream) (left : List (Event P2PStream))
    → AreFrom parties (map value ps ++ left)
    → All (λ (q : P2PStream). HasId q.remote_party_id parties) ps
AreFrom-values parties [] left a = tt
AreFrom-values parties (p ∷ ps) left a = (a.0, AreFrom-values parties ps left a.1)

-- The first loop goes on only with streams to different parties, one for each party of the list.
pub proceed-everyone :
    (parties : List PartyId) (es : List (Event P2PStream)) (m : StreamMap) (k : Text)
    → AreFrom parties es
    → wait_for_ready (length parties) es [] ≡ proceed m
    → HasId k parties
    → contains m k ≡ true
proceed-everyone parties es m k from h at =
    let (ps, left, he, hm, full) = wait_for_ready-proceed (length parties) es [] m h in
    let all = AreFrom-values parties ps left (subst (AreFrom parties) he from) in
    full_map m parties k (subst HasDistinctKeys (sym hm) (stored-HasDistinctKeys [] ps tt))
      (subst (λ x. KeysAreIds x parties) (sym hm) (stored-KeysAreIds [] ps parties all tt)) full at

-- When an id is there twice in a request of KeyGen, its first loop never goes on: whatever streams
-- to the parties become ready, the call returns only by an error or the end of its context.
pub twice_never_proceeds :
    (parties : List PartyId) (es : List (Event P2PStream)) (m : StreamMap) (k : Text)
    → IsTwice k parties
    → AreFrom parties es
    → wait_for_ready (length parties) es [] ≢ proceed m
twice_never_proceeds parties es m k twice from h =
    let (ps, left, he, hm, full) = wait_for_ready-proceed (length parties) es [] m h in
    let all = AreFrom-values parties ps left (subst (AreFrom parties) he from) in
    let few =
      length-lt-parties m parties k
        (subst HasDistinctKeys (sym hm) (stored-HasDistinctKeys [] ps tt))
        (subst (λ x. KeysAreIds x parties) (sym hm) (stored-KeysAreIds [] ps parties all tt))
        twice in
    omega arith

-- Every party of the request has its stream in the map, and the last loop has taken one success for
-- each party, the last of these with the key of the answer.
abbrev pub IsUnanimous :
    Text → KeyGenRequest → List (Event KeyGenFinishMsg) → StreamMap → KeyGenResponse → Type 0
IsUnanimous session_id request finishes m r =
    ((k : Text) → HasId k request.all_party_id → contains m k ≡ true)
    × (ms : List KeyGenFinishMsg) × (last : KeyGenFinishMsg) × (left : List (Event KeyGenFinishMsg))
    × (finishes ≡ map value ms ++ value last ∷ left)
    × All (λ (x : KeyGenFinishMsg). x.is_success ≡ true) (ms ++ last ∷ [])
    × (length ms + 1 ≡ length request.all_party_id)
    × (r ≡ record { session_id = session_id; public_key = last.public_key })

after_wait-IsUnanimous :
    (session_id : Text) (request : KeyGenRequest) (readies : List (Event P2PStream))
    (finishes : List (Event KeyGenFinishMsg)) (r : KeyGenResponse) (w : Wait)
    → 0 < length request.all_party_id
    → length request.all_party_id < 2 ^ 31
    → AreFrom request.all_party_id readies
    → wait_for_ready (length request.all_party_id) readies [] ≡ w
    → (after_wait session_id request finishes w).answer ≡ generated r
    → IsUnanimous session_id request finishes (after_wait session_id request finishes w).closed r
unfolding after_wait
after_wait-IsUnanimous session_id request readies finishes r (returned e m) some_party few from at
      g =
    cc
after_wait-IsUnanimous session_id request readies finishes r (waiting m) some_party few from at g =
    cc
after_wait-IsUnanimous session_id request readies finishes r (proceed m) some_party few from at g =
    let (ms, last, left, he, hs, hc, hr) =
      wait_for_finish-generated session_id (length request.all_party_id) 0 finishes r few some_party
        g in
    (
      λ k. proceed-everyone request.all_party_id readies m k from at,
      ms,
      last,
      left,
      he,
      hs,
      omega arith,
      hr,
    )

-- A call of KeyGen answers with a key only if a stream to each party of its request became ready,
-- all of which it closes, and n parties reported a success, the last of these with the key of the
-- answer: for n parties, 0 < n < 2^31, where every ready stream is to a party of the request.
pub key_gen-IsUnanimous :
    (session_id : Text) (request : KeyGenRequest) (readies : List (Event P2PStream))
    (finishes : List (Event KeyGenFinishMsg)) (r : KeyGenResponse)
    → 0 < length request.all_party_id
    → length request.all_party_id < 2 ^ 31
    → AreFrom request.all_party_id readies
    → (key_gen (ok session_id) request readies finishes).answer ≡ generated r
    → IsUnanimous session_id request finishes
        (key_gen (ok session_id) request readies finishes).closed
        r
unfolding key_gen
key_gen-IsUnanimous session_id request readies finishes r some_party few from h =
    after_wait-IsUnanimous session_id request readies finishes r
      (wait_for_ready (length request.all_party_id) readies []) some_party few from refl h
