-- ===== src/P2p/StreamMap/Distinct.antt =====
-- Ready streams to different parties: each of them stays in the map, in its order.
use tss_server.Prelude.{
  ◌+◌, Text, ◌==◌, false, Bool-cases, inl, inr, List, [], ◌∷◌, ◌++◌, map, length, All, All-left,
  suc, ◌≡◌, refl, sym, ap, ◌∙◌, length-append,
}
use mathlib.Core.List.{append_assoc, append-nil}
use tss_server.P2p.{P2PStream}
use tss_server.P2p.StreamMap.{StreamMap, store, stored, contains, contains-store}

-- The streams of the map.
abbrev pub map_streams : StreamMap → List P2PStream
map_streams = map (λ (e : Text × P2PStream). e.1)

-- No two streams are to one party.
abbrev pub HasDistinctRemotes : List P2PStream → Type 0
HasDistinctRemotes [] = Unit {0}
HasDistinctRemotes (p ∷ ps) =
    All (λ (q : P2PStream). (p.remote_party_id == q.remote_party_id) ≡ false) ps
    × HasDistinctRemotes ps

map_streams-store :
    (m : StreamMap) (p : P2PStream)
    → contains m p.remote_party_id ≡ false
    → map_streams (store m p) ≡ map_streams m ++ p ∷ []
unfolding store contains
map_streams-store [] p new = refl
map_streams-store ((k, q) ∷ m) p new = elim (Bool-cases (k == p.remote_party_id)) [
  | inl e ↦ cc (rw e at new)
  | inr e ↦ rw e (ap (λ l. q ∷ l) (map_streams-store m p (rw e at new)))
]

pub still_new :
    (m : StreamMap) (p : P2PStream) (ps : List P2PStream)
    → All (λ (q : P2PStream). (p.remote_party_id == q.remote_party_id) ≡ false) ps
    → All (λ (q : P2PStream). contains m q.remote_party_id ≡ false) ps
    → All (λ (q : P2PStream). contains (store m p) q.remote_party_id ≡ false) ps
still_new m p [] others new = tt
still_new m p (q ∷ qs) (other, others) (absent, new) =
    (contains-store m p q.remote_party_id ∙ rw other absent, still_new m p qs others new)

pub map_streams-stored :
    (m : StreamMap) (ps : List P2PStream)
    → HasDistinctRemotes ps
    → All (λ (q : P2PStream). contains m q.remote_party_id ≡ false) ps
    → map_streams (stored m ps) ≡ map_streams m ++ ps
map_streams-stored m [] apart new = sym (append-nil (map_streams m))
map_streams-stored m (p ∷ ps) (others, apart) (first, new) =
    map_streams-stored (store m p) ps apart (still_new m p ps others new)
    ∙ ap (λ l. l ++ ps) (map_streams-store m p first)
    ∙ append_assoc (map_streams m) (p ∷ []) ps

pub nothing_stored :
    (ps : List P2PStream) → All (λ (q : P2PStream). contains [] q.remote_party_id ≡ false) ps
unfolding contains
nothing_stored [] = tt
nothing_stored (p ∷ ps) = (refl, nothing_stored ps)

pub length-map_streams : (m : StreamMap) → length (map_streams m) ≡ length m
length-map_streams [] = refl
length-map_streams (e ∷ m) = ap suc (length-map_streams m)

pub HasDistinctRemotes-left :
    (ready rest : List P2PStream) → HasDistinctRemotes (ready ++ rest) → HasDistinctRemotes ready
HasDistinctRemotes-left [] rest apart = tt
HasDistinctRemotes-left (p ∷ ready) rest (others, apart) = (
  All-left (λ (q : P2PStream). (p.remote_party_id == q.remote_party_id) ≡ false) ready rest others,
  HasDistinctRemotes-left ready rest apart,
)

-- Each of the streams makes the map one longer.
pub length-stored_new :
    (m : StreamMap) (ps : List P2PStream)
    → HasDistinctRemotes ps
    → All (λ (q : P2PStream). contains m q.remote_party_id ≡ false) ps
    → length (stored m ps) ≡ length m + length ps
length-stored_new m ps apart new =
    sym (length-map_streams (stored m ps))
    ∙ ap length (map_streams-stored m ps apart new)
    ∙ length-append (map_streams m) ps
    ∙ ap (λ n. n + length ps) (length-map_streams m)
