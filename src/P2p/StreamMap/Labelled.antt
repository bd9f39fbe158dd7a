-- ===== src/P2p/StreamMap/Labelled.antt =====
-- Things of the parties of a key, one of each: xs many xs there are parties.
use tss_server.Prelude.{
  suc, Text, ◌==◌, ==_iff, true, false, Bool-cases, inl, inr, List, [], ◌∷◌, ◌++◌, Memᴰ, length,
  All, All-left, ◌≡◌, refl, ap, ◌∙◌,
}
use tss_server.Proto.{PartyId}
use tss_server.P2p.StreamMap.{StreamMap, contains, HasDistinctKeys, HasId, KeysAreIds}
use tss_server.P2p.StreamMap.Counting.{full_map}

module _ {A : Type 0} (id_of : A → Text) where
  -- No two are of one party.
  abbrev pub HaveDistinctIds : List A → Type 0
  HaveDistinctIds [] = Unit {0}
  HaveDistinctIds (a ∷ xs) = All (λ (b : A). (id_of b == id_of a) ≡ false) xs × HaveDistinctIds xs

  pub HaveDistinctIds-left :
      (front back : List A) → HaveDistinctIds (front ++ back) → HaveDistinctIds front
  HaveDistinctIds-left [] back h = tt
  HaveDistinctIds-left (a ∷ front) back (others, apart) = (
    All-left (λ (b : A). (id_of b == id_of a) ≡ false) front back others,
    HaveDistinctIds-left front back apart,
  )

  abbrev by_id : List A → StreamMap
  by_id [] = []
  by_id (a ∷ xs) = (id_of a, record { id = []; remote_party_id = id_of a }) ∷ by_id xs

  length-by_id : (xs : List A) → length (by_id xs) ≡ length xs
  length-by_id [] = refl
  length-by_id (a ∷ xs) = ap suc (length-by_id xs)

  by_id-new :
      (a : A) (xs : List A)
      → All (λ (b : A). (id_of b == id_of a) ≡ false) xs
      → contains (by_id xs) (id_of a) ≡ false
  unfolding contains
  by_id-new a [] others = refl
  by_id-new a (b ∷ xs) (other, others) = rw other (by_id-new a xs others)

  by_id-HasDistinctKeys : (xs : List A) → HaveDistinctIds xs → HasDistinctKeys (by_id xs)
  by_id-HasDistinctKeys [] apart = tt
  by_id-HasDistinctKeys (a ∷ xs) (others, apart) =
      (by_id-new a xs others, by_id-HasDistinctKeys xs apart)

  by_id-KeysAreIds :
      (ps : List PartyId) (xs : List A)
      → All (λ (a : A). HasId (id_of a) ps) xs
      → KeysAreIds (by_id xs) ps
  by_id-KeysAreIds ps [] all = tt
  by_id-KeysAreIds ps (a ∷ xs) (one, all) = (one, by_id-KeysAreIds ps xs all)

  by_id-contains :
      (xs : List A) (k : Text) → contains (by_id xs) k ≡ true → (a : A) × Memᴰ a xs × (id_of a ≡ k)
  unfolding contains
  by_id-contains [] k h = absurd (cc h)
  by_id-contains (a ∷ xs) k h = elim (Bool-cases (id_of a == k)) [
    | inl e ↦ (a, Memᴰ.head refl, (==_iff (id_of a) k).0 e)
    | inr e ↦ let (b, at, same) = by_id-contains xs k (rw e at h) in (b, Memᴰ.tail at, same)
  ]

  -- No party is missing, when there are xs many xs parties.
  pub everyone_has :
      (xs : List A) (ps : List PartyId) (k : Text)
      → HaveDistinctIds xs
      → All (λ (a : A). HasId (id_of a) ps) xs
      → length xs ≡ length ps
      → HasId k ps
      → (a : A) × Memᴰ a xs × (id_of a ≡ k)
  everyone_has xs ps k apart ids size at = by_id-contains xs k (
      full_map (by_id xs) ps k (by_id-HasDistinctKeys xs apart) (by_id-KeysAreIds ps xs ids)
        (length-by_id xs ∙ size) at)

-- What holds for every id holds for every party.
pub for_ids :
    (P : Text → Type 0) (ps : List PartyId)
    → ((k : Text) → HasId k ps → P k)
    → All (λ (p : PartyId). P p.id) ps
for_ids P [] f = tt
for_ids P (p ∷ ps) f = (f p.id (inl refl), for_ids P ps (λ k at. f k (inr at)))
