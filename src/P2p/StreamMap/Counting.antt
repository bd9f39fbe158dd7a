-- ===== src/P2p/StreamMap/Counting.antt =====
-- How many ready streams a map by the id of the remote party can hold.
use tss_server.Prelude.{
  suc, ◌<◌, ◌≤◌, Text, ◌==◌, ==_iff, true, false, Bool-cases, inl, inr, List, [], ◌∷◌, length,
  if◌then◌else◌, ◌≡◌, sym, ap, ◌∙◌, subst, arith,
}
use tss_server.Proto.{PartyId}
use tss_server.P2p.StreamMap.{StreamMap, contains, HasId, HasDistinctKeys, KeysAreIds}

-- A map whose keys are ids of the parties has no more streams than there are parties.
unfoldable pub without_id : Text → List PartyId → List PartyId
without_id k [] = []
without_id k (p ∷ ps) = let rest = without_id k ps in if k == p.id then ps else p ∷ rest

length-without_id :
    (k : Text) (ps : List PartyId) → HasId k ps → suc (length (without_id k ps)) ≡ length ps
unfolding without_id
length-without_id k [] h = elim h [ ]
length-without_id k (p ∷ ps) (inl e) = rw ((==_iff k p.id).1 e)
length-without_id k (p ∷ ps) (inr h) = elim (Bool-cases (k == p.id)) [
  | inl e ↦ rw e
  | inr ne ↦ rw ne (ap suc (length-without_id k ps h))
]

HasId-without_id :
    (k j : Text) (ps : List PartyId) → (k == j) ≡ false → HasId j ps → HasId j (without_id k ps)
unfolding without_id
HasId-without_id k j [] ne h = h
HasId-without_id k j (p ∷ ps) ne h = elim (Bool-cases (k == p.id)) [
  | inl e ↦
      rw e (elim h [ inl q ↦ cc ((==_iff k j).1 ((==_iff k p.id).0 e ∙ sym q), ne) | inr r ↦ r ])
  | inr other ↦ rw other (elim h [ inl q ↦ inl q | inr r ↦ inr (HasId-without_id k j ps ne r) ])
]

KeysAreIds-without_id :
    (k : Text) (m : StreamMap) (ps : List PartyId)
    → contains m k ≡ false
    → KeysAreIds m ps
    → KeysAreIds m (without_id k ps)
unfolding contains
KeysAreIds-without_id k [] ps lacks ids = tt
KeysAreIds-without_id k ((j, q) ∷ m) ps lacks ids = (
  HasId-without_id k j ps (ground (arith, ==_iff k j, ==_iff j k)) ids.0,
  KeysAreIds-without_id k m ps (ground arith) ids.1,
)

pub length-le-parties :
    (m : StreamMap) (ps : List PartyId) → HasDistinctKeys m → KeysAreIds m ps → length m ≤ length ps
length-le-parties [] ps d ids = omega arith
length-le-parties ((k, q) ∷ m) ps d ids = omega (
  arith,
  length-without_id k ps ids.0,
  length-le-parties m (without_id k ps) d.1 (KeysAreIds-without_id k m ps d.0 ids.1),
)

-- When there are as many streams as parties, no party is missing.
pub full_map :
    (m : StreamMap) (ps : List PartyId) (k : Text)
    → HasDistinctKeys m
    → KeysAreIds m ps
    → length m ≡ length ps
    → HasId k ps
    → contains m k ≡ true
full_map m ps k d ids full at = elim (Bool-cases (contains m k)) [
  | inl has ↦ has
  | inr lacks ↦
      let few = length-le-parties m (without_id k ps) d (KeysAreIds-without_id k m ps lacks ids) in
      absurd (omega (arith, length-without_id k ps at))
]

-- Two parties of the list have the id.
abbrev pub IsTwice : Text → List PartyId → Type 0
IsTwice k ps = HasId k ps × HasId k (without_id k ps)

KeysAreIds-twice :
    (k : Text) (m : StreamMap) (ps : List PartyId)
    → IsTwice k ps
    → KeysAreIds m ps
    → KeysAreIds m (without_id k ps)
KeysAreIds-twice k [] ps t ids = tt
KeysAreIds-twice k ((j, q) ∷ m) ps t ids = (
  elim (Bool-cases (k == j)) [
    | inl e ↦ subst (λ x. HasId x (without_id k ps)) ((==_iff k j).0 e) t.1
    | inr ne ↦ HasId-without_id k j ps ne ids.0
  ],
  KeysAreIds-twice k m ps t ids.1,
)

-- When an id is there twice, there are fewer streams than parties.
pub length-lt-parties :
    (m : StreamMap) (ps : List PartyId) (k : Text)
    → HasDistinctKeys m
    → KeysAreIds m ps
    → IsTwice k ps
    → length m < length ps
length-lt-parties m ps k d ids t = omega (
  arith,
  length-without_id k ps t.0,
  length-le-parties m (without_id k ps) d (KeysAreIds-twice k m ps t ids),
)
