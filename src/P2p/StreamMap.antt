-- ===== src/P2p/StreamMap.antt =====
-- A map of ready streams by the id of the remote party, as the coordinators keep it, against the
-- list of a key's parties.
pub mod Counting
pub mod Labelled
pub mod Distinct
use tss_server.Prelude.{
  suc, ◌≤◌, Text, ◌==◌, ==_iff, Bool, true, false, Bool-cases, ◌⊎◌, inl, inr, List, [], ◌∷◌, length,
  All, if◌then◌else◌, ◌≡◌, refl, sym, ap, ◌∙◌, subst, arith,
}
use mathlib.Core.List.{foldl}
use tss_server.Proto.{PartyId}
use tss_server.P2p.{P2PStream}

-- readyP2PStreamMap, by the remote party's id.
abbrev pub StreamMap : Type 0
StreamMap = List (Text × P2PStream)

unfoldable pub store : StreamMap → P2PStream → StreamMap
store [] p = (p.remote_party_id, p) ∷ []
store ((k, q) ∷ m) p =
    let rest = store m p in
    if k == p.remote_party_id then (p.remote_party_id, p) ∷ m else (k, q) ∷ rest

unfoldable pub contains : StreamMap → Text → Bool
contains [] k = false
contains ((j, q) ∷ m) k = if j == k then true else contains m k

-- No two parties of the list have one id.
abbrev pub HasDistinctIds : List PartyId → Type 0
HasDistinctIds [] = Unit {0}
HasDistinctIds (p ∷ ps) = All (λ (q : PartyId). (p.id == q.id) ≡ false) ps × HasDistinctIds ps

abbrev pub HasDistinctKeys : StreamMap → Type 0
HasDistinctKeys [] = Unit {0}
HasDistinctKeys ((k, q) ∷ m) = (contains m k ≡ false) × HasDistinctKeys m

-- Some party has the id.
abbrev pub HasId : Text → List PartyId → Type 0
HasId k [] = ⊥
HasId k (p ∷ ps) = (k ≡ p.id) ⊎ HasId k ps

abbrev pub KeysAreIds : StreamMap → List PartyId → Type 0
KeysAreIds m ps = All (λ (e : Text × P2PStream). HasId e.0 ps) m

pub HasId-apart :
    (k i : Text) (ps : List PartyId)
    → All (λ (q : PartyId). (i == q.id) ≡ false) ps
    → HasId k ps
    → (k == i) ≡ false
HasId-apart k i [] a h = elim h [ ]
HasId-apart k i (p ∷ ps) a (inl e) = ground (arith, a.0, ==_iff k i, ==_iff i p.id)
HasId-apart k i (p ∷ ps) a (inr h) = HasId-apart k i ps a.1 h

pub length-store :
    (m : StreamMap) (p : P2PStream)
    → length (store m p) ≡ (if contains m p.remote_party_id then length m else suc (length m))
unfolding store contains
length-store [] p = refl
length-store ((k, q) ∷ m) p = ground (arith, length-store m p)

abbrev pub stored : StreamMap → List P2PStream → StreamMap
stored = foldl store

pub length-stored : (m : StreamMap) (ps : List P2PStream) → length m ≤ length (stored m ps)
length-stored m [] = omega arith
length-stored m (p ∷ ps) = ground (arith, length-store m p, length-stored (store m p) ps)

pub contains-store :
    (m : StreamMap) (p : P2PStream) (k : Text)
    → contains (store m p) k ≡ (if p.remote_party_id == k then true else contains m k)
unfolding contains store
contains-store [] p k = refl
contains-store ((j, q) ∷ m) p k = ground (
  arith,
  contains-store m p k,
  ==_iff j p.remote_party_id,
  ==_iff p.remote_party_id k,
  ==_iff j k,
)

-- A map that KeySign builds has no key twice.
pub store-HasDistinctKeys :
    (m : StreamMap) (p : P2PStream) → HasDistinctKeys m → HasDistinctKeys (store m p)
unfolding store
store-HasDistinctKeys [] p d = (unfold contains in refl, tt)
store-HasDistinctKeys ((j, q) ∷ m) p d = elim (Bool-cases (j == p.remote_party_id)) [
  | inl e ↦ rw e (subst (λ k. contains m k ≡ false) ((==_iff j p.remote_party_id).0 e) d.0, d.1)
  | inr ne ↦ rw ne (
    contains-store m p j
        ∙ ground (arith, ==_iff p.remote_party_id j, ==_iff j p.remote_party_id, d.0),
    store-HasDistinctKeys m p d.1,
  )
]

pub store-KeysAreIds :
    (m : StreamMap) (p : P2PStream) (ps : List PartyId)
    → HasId p.remote_party_id ps
    → KeysAreIds m ps
    → KeysAreIds (store m p) ps
unfolding store
store-KeysAreIds [] p ps h ids = (h, tt)
store-KeysAreIds ((j, q) ∷ m) p ps h ids = ground (arith, store-KeysAreIds m p ps h ids.1)

pub stored-HasDistinctKeys :
    (m : StreamMap) (qs : List P2PStream) → HasDistinctKeys m → HasDistinctKeys (stored m qs)
stored-HasDistinctKeys m [] d = d
stored-HasDistinctKeys m (q ∷ qs) d =
    stored-HasDistinctKeys (store m q) qs (store-HasDistinctKeys m q d)

pub stored-KeysAreIds :
    (m : StreamMap) (qs : List P2PStream) (ps : List PartyId)
    → All (λ (q : P2PStream). HasId q.remote_party_id ps) qs
    → KeysAreIds m ps
    → KeysAreIds (stored m qs) ps
stored-KeysAreIds m [] ps h ids = ids
stored-KeysAreIds m (q ∷ qs) ps h ids =
    stored-KeysAreIds (store m q) qs ps h.1 (store-KeysAreIds m q ps h.0 ids)
